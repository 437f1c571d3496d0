-- ===== src/Dist/Delivery.antt =====
-- Which pipes a message is written to (src/pipe/dist.cpp), and what becomes of its references.
use serverlink.Prelude.{
  ℕ, zero, suc, ◌+◌, ◌-◌, ◌≤◌, ◌≡◌, ap, arith, ◌==◌, ==_iff, not, ◌&&◌, Bool, if◌then◌else◌, List,
  ◌∷◌, get_or, Bool-cases, inl, inr,
}
use serverlink.Msg.{Msg}
use serverlink.Fq.{swap}
use serverlink.Fq.Bounds.{length-swap}
use serverlink.Dist.{Dist, drop_pipe, flush_last, write_loop, distribute, send_to_matching}
use serverlink.Dist.Bounds.{IsValid, drop_pipe-IsValid}
use serverlink.Dist.Slots.{
  among, among-shift, among-swap_other, among-split, count, count-swap, index-get_or, index-swap,
}

-- What becomes of the pipes from `i` on when the one at `i` fails.
drop_pipe_lem :
    (d : Dist) (i n q : ℕ)
    → IsValid d
    → i + suc n ≡ d.matching
    → count d.pipes (get_or d.pipes i 0) ≤ 1
    → (among (drop_pipe (get_or d.pipes i 0) d).pipes i n q
          + (if get_or d.pipes i 0 == q then 1 else 0)
        ≡ among d.pipes i (suc n) q)
      × (among (drop_pipe (get_or d.pipes i 0) d).pipes 0 i q ≡ among d.pipes 0 i q)
      × (count (drop_pipe (get_or d.pipes i 0) d).pipes q ≡ count d.pipes q)
      × ((drop_pipe (get_or d.pipes i 0) d).matching ≡ i + n)
unfolding drop_pipe
drop_pipe_lem d i n q v h u =
    let p : ℕ = get_or d.pipes i 0 in
    let ps : List ℕ = swap i (i + n) d.pipes in
    let qs : List ℕ = swap (i + n) (d.active - 1) ps in
    let next : n + 1 ≡ suc n = omega arith in
    ground (
      arith,
      ap (λ c. among d.pipes i c q) next,
      index-get_or d.pipes i,
      index-swap d.pipes p (i + n),
      among-shift d.pipes i n q,
      among-swap_other ps (i + n) (d.active - 1) i n q,
      among-swap_other qs (d.active - 1) (d.eligible - 1) i n q,
      among-swap_other d.pipes i (i + n) 0 i q,
      among-swap_other ps (i + n) (d.active - 1) 0 i q,
      among-swap_other qs (d.active - 1) (d.eligible - 1) 0 i q,
      count-swap i (i + n) q d.pipes,
      count-swap (i + n) (d.active - 1) q ps,
      count-swap (d.active - 1) (d.eligible - 1) q qs,
      length-swap i (i + n) d.pipes,
      length-swap (i + n) (d.active - 1) ps,
    )

-- The pipes that were written to and those that failed, beside what the pipes themselves keep.
pub record Log (T : Type 0) : Type 0 where
  pub attempts : List ℕ
  pub failed : List ℕ
  pub store : T

abbrev pub logged : {T : Type 0} → (ℕ → Msg → T → Bool × T) → ℕ → Msg → Log T → Bool × Log T
logged w p m s = (
  (w p m s.store).0,
  record {
    attempts = p ∷ s.attempts;
    failed = if (w p m s.store).0 then s.failed else p ∷ s.failed;
    store = (w p m s.store).1;
  },
)

abbrev pub logged_flush : {T : Type 0} → (ℕ → T → T) → ℕ → Log T → Log T
logged_flush flush p s = record s { store = flush p s.store }

module _ {T : Type 0} (w : ℕ → Msg → T → Bool × T) (flush : ℕ → T → T) where
  loop_delivery :
      (n i : ℕ) (m : Msg) (d : Dist) (s : Log T) (q : ℕ)
      → IsValid d
      → ((p : ℕ) → count d.pipes p ≤ 1)
      → i + n ≡ d.matching
      → let r = write_loop (logged w) (logged_flush flush) n i m d s in
        (count r.1.attempts q ≡ count s.attempts q + among d.pipes i n q)
        × (count r.1.failed q + among r.0.pipes 0 r.0.matching q
            ≡ count s.failed q + among d.pipes 0 d.matching q)
        × (r.2 + r.0.matching ≡ d.matching)
        × IsValid r.0
  unfolding write_loop
  loop_delivery zero i m d s q v u h = ground arith
  loop_delivery (suc n) i m d s q v u h =
      let p : ℕ = get_or d.pipes i 0 in
      let m' : Log T = (logged w p m s).1 in
      elim (Bool-cases (w p m s.store).0) [
        | inl good ↦ ground (
          arith,
          good,
          loop_delivery n (i + 1) m d (flush_last (logged w) (logged_flush flush) p m m') q v u,
        )
        | inr bad ↦ ground (
          arith,
          bad,
          drop_pipe-IsValid p d v,
          drop_pipe_lem d i n q v,
          u p,
          among-split (drop_pipe p d).pipes 0 i n q,
          among-split d.pipes 0 i (suc n) q,
          loop_delivery n i m (drop_pipe p d) m' q (drop_pipe-IsValid p d v (omega arith))
              (λ p'. ground (arith, drop_pipe_lem d i n p' v, u p, u p')),
        )
      ]

  -- A distributor with no pipe twice and with its bounds in order writes a message to each of the matching
  -- pipes once, whatever the pipes answer; the matching pipes that did not fail stay matching, the bounds
  -- stay in order, and a shared content then has a reference for each of these pipes in place of the
  -- sender's.
  pub send_to_matching_delivery :
      (vsm : Bool) (m : Msg) (d : Dist) (s : Log T) (refs q : ℕ)
      → IsValid d
      → ((p : ℕ) → count d.pipes p ≤ 1)
      → 1 ≤ refs
      → let r = send_to_matching (logged w) (logged_flush flush) vsm m d (s, refs) in
        (count r.1.attempts q ≡ count s.attempts q + among d.pipes 0 d.matching q)
        × (count r.1.failed q + among r.0.pipes 0 r.0.matching q
            ≡ count s.failed q + among d.pipes 0 d.matching q)
        × IsValid r.0
        × (r.2 + 1 ≡ refs + (if vsm && not (d.matching == 0) then 1 else r.0.matching))
  unfolding send_to_matching distribute
  send_to_matching_delivery vsm m d s refs q v u h =
      ground (arith, loop_delivery d.matching 0 m d s q v u, ==_iff d.matching 0)
