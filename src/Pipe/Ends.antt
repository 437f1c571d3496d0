-- ===== src/Pipe/Ends.antt =====
-- One end of a pair of pipes, and what it has sent of the handshake (src/pipe/pipe.cpp).
use serverlink.Prelude.{ℕ, ◌≡◌, ltb, Bool, true, false, some, arith, inl, inr, ◌||◌, Bool-cases}
use serverlink.Pipe.Queue.{YpipeBase}
use serverlink.Pipe.Endpoint.{Pipe}
use serverlink.Pipe.Term.{process_pipe_term, process_pipe_term_ack}
use serverlink.Pipe.Handshake.{sent_term, sent_ack, count_terms, count_acks, one_if, IsOrderly}

-- `gone` once the end is deallocated; `pipe` is then what `process_pipe_term_ack` made of it.
pub record End (Q : Type 0) : Type 0 where
  pub pipe : Pipe Q
  pub gone : Bool

-- Whether the end sent its request, and whether it sent its acknowledgement.
abbrev pub asked : {Q : Type 0} → End Q → Bool
asked e = ltb 0 (count_terms e.pipe.sent)

abbrev pub acked : {Q : Type 0} → End Q → Bool
acked e = ltb 0 (count_acks e.pipe.sent)

ltb-one_if : (n : ℕ) (x : Bool) → n ≡ one_if x → ltb 0 n ≡ x
ltb-one_if n true e = ground (arith, e)
ltb-one_if n false e = ground (arith, e)

module _ {Q : Type 0} where
  -- The state tells what an end has sent: the request always, the acknowledgement until the end is
  -- gone, and then it was sent in any case.
  pub record Kept (e : End Q) : Type 0 where
    pub terms : count_terms e.pipe.sent ≡ one_if (sent_term e.pipe.state)
    pub here : e.gone ≡ false → IsOrderly e.pipe
    pub left : e.gone ≡ true → acked e ≡ true

  pub asked_lem : (e : End Q) → Kept e → asked e ≡ sent_term e.pipe.state
  asked_lem e k = ltb-one_if (count_terms e.pipe.sent) (sent_term e.pipe.state) k.terms

  pub acked_lem : (e : End Q) → Kept e → acked e ≡ (e.gone || sent_ack e.pipe.state)
  acked_lem e k = elim (Bool-cases e.gone) [
    | inl g ↦ rw g (k.left g)
    | inr g ↦ rw g (ltb-one_if (count_acks e.pipe.sent) (sent_ack e.pipe.state) (k.here g).acks)
  ]

  pub here-Kept : (p : Pipe Q) → IsOrderly p → Kept (record { pipe = p; gone = false })
  here-Kept p v = record { terms = v.terms; here = λ h. v; left = λ h. cc }

module _ {Q : Type 0} (q : YpipeBase Q) where
  pub process_pipe_term_ack-Kept :
      (p p' : Pipe Q)
      → process_pipe_term_ack q p ≡ some p'
      → IsOrderly p
      → (p'.state ≡ p.state) × Kept (record { pipe = p'; gone = true })
  unfolding process_pipe_term_ack
  process_pipe_term_ack-Kept p p' e v = ground arith

  pub process_pipe_term-Moves :
      (p p' : Pipe Q)
      → process_pipe_term q p ≡ some p'
      → IsOrderly p
      → (sent_term p.state ≡ true → sent_term p'.state ≡ true)
        × (sent_ack p.state ≡ true → sent_ack p'.state ≡ true)
        × IsOrderly p'
  unfolding process_pipe_term
  process_pipe_term-Moves p p' e v = (ground arith, ground arith, ground arith)
