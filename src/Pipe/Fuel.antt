-- ===== src/Pipe/Fuel.antt =====
-- The loops of src/pipe/pipe.cpp over a queue end by their own tests.
use serverlink.Prelude.{ℕ, zero, suc, ◌<◌, ◌≡◌, arith, inl, inr, Option-cases}
use serverlink.Pipe.Queue.{YpipeBase}
use serverlink.Pipe.Transfer.{fetch, unwrite_all}
use serverlink.Pipe.Term.{drain, uncount}

module _ {Q : Type 0} (q : YpipeBase Q) where
  fetch-more : (f : ℕ) (inq : Q) → q.size inq < f → fetch q (suc f) inq ≡ fetch q f inq
  unfolding fetch
  fetch-more zero inq h = absurd (omega arith)
  fetch-more (suc f) inq h = elim (Option-cases (q.read inq).0) [
    | inl e ↦ ground arith
    | inr (m, e) ↦ ground (arith, q.read_shrinks inq m e, fetch-more f (q.read inq).1)
  ]

  unwrite_all-more :
      (f : ℕ) (out : Q) → q.size out < f → unwrite_all q (suc f) out ≡ unwrite_all q f out
  unfolding unwrite_all
  unwrite_all-more zero out h = absurd (omega arith)
  unwrite_all-more (suc f) out h = elim (Option-cases (q.unwrite out).0) [
    | inl e ↦ ground arith
    | inr (m, e) ↦ ground (arith, q.unwrite_shrinks out m e, unwrite_all-more f (q.unwrite out).1)
  ]

  drain-more : (f : ℕ) (inq : Q) → q.size inq < f → drain q (suc f) inq ≡ drain q f inq
  unfolding drain
  drain-more zero inq h = absurd (omega arith)
  drain-more (suc f) inq h = elim (Option-cases (q.read inq).0) [
    | inl e ↦ ground arith
    | inr (m, e) ↦ ground (arith, q.read_shrinks inq m e, drain-more f (q.read inq).1)
  ]

  uncount-more : (f n : ℕ) (out : Q) → q.size out < f → uncount q (suc f) out n ≡ uncount q f out n
  unfolding uncount
  uncount-more zero n out h = absurd (omega arith)
  uncount-more (suc f) n out h = elim (Option-cases (q.read out).0) [
    | inl e ↦ ground arith
    | inr (m, e) ↦
        rw (e, uncount) (uncount-more f _ (q.read out).1 (omega (arith, q.read_shrinks out m e)))
  ]

  -- The four loops end because the queue has nothing more to give, not because of the fuel: with any
  -- more fuel than the queue's size they do the same as with one round more.
  pub loops_enough :
      (f n : ℕ) (queue : Q)
      → q.size queue < f
      → (fetch q (suc f) queue ≡ fetch q f queue)
        × (unwrite_all q (suc f) queue ≡ unwrite_all q f queue)
        × (drain q (suc f) queue ≡ drain q f queue)
        × (uncount q (suc f) queue n ≡ uncount q f queue n)
  loops_enough f n queue h = (
    fetch-more f queue h,
    unwrite_all-more f queue h,
    drain-more f queue h,
    uncount-more f n queue h,
  )
