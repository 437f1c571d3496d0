-- ===== src/Pipe/Handshake.antt =====
-- What one end of a pipe has told its peer, read off its state.
use serverlink.Prelude.{
  ℕ, suc, ◌≤◌, ◌≡◌, Bool, true, false, Option, none, some, List, [], ◌∷◌, arith, not,
}
use serverlink.Pipe.Queue.{YpipeBase}
use serverlink.Pipe.Endpoint.{
  State, waiting_for_delimiter, term_ack_sent, term_req_sent1, term_req_sent2, Effect, pipe_term,
  pipe_term_ack, Pipe,
}
use serverlink.Pipe.Transfer.{rollback, process_delimiter}
use serverlink.Pipe.Term.{process_pipe_term, process_pipe_term_ack, write_delimiter, terminate}

abbrev pub sent_term : State → Bool
sent_term term_req_sent1 = true
sent_term term_req_sent2 = true
sent_term _ = false

abbrev pub sent_ack : State → Bool
sent_ack term_ack_sent = true
sent_ack term_req_sent2 = true
sent_ack _ = false

abbrev pub got_term : State → Bool
got_term waiting_for_delimiter = true
got_term term_ack_sent = true
got_term term_req_sent2 = true
got_term _ = false

abbrev pub one_if : Bool → ℕ
one_if true = 1
one_if false = 0

abbrev pub count_terms : {Q : Type 0} → List (Effect Q) → ℕ
count_terms [] = 0
count_terms (pipe_term ∷ es) = suc (count_terms es)
count_terms (e ∷ es) = count_terms es

abbrev pub count_acks : {Q : Type 0} → List (Effect Q) → ℕ
count_acks [] = 0
count_acks (pipe_term_ack ∷ es) = suc (count_acks es)
count_acks (e ∷ es) = count_acks es

-- The state tells which of the two commands went out, each once at most, and whether the outbound
-- queue was given up: with the acknowledgement.
pub record IsOrderly {Q : Type 0} (p : Pipe Q) : Type 0 where
  pub terms : count_terms p.sent ≡ one_if (sent_term p.state)
  pub acks : count_acks p.sent ≡ one_if (sent_ack p.state)
  pub open_until_ack : p.out_open ≡ not (sent_ack p.state)

-- Some operation gives up on a failed assertion, or leaves things in order.
abbrev pub Keeps : {Q : Type 0} → Option (Pipe Q) → Type 0
Keeps none = Unit
Keeps (some p) = IsOrderly p

module _ {Q : Type 0} (q : YpipeBase Q) where
  rollback-Keeps : (p : Pipe Q) → IsOrderly p → Keeps (rollback q p)
  unfolding rollback
  rollback-Keeps p v = ground arith

  process_delimiter-Keeps : (p : Pipe Q) → IsOrderly p → Keeps (process_delimiter q p)
  unfolding process_delimiter
  process_delimiter-Keeps p v = ground arith

  process_pipe_term-Keeps : (p : Pipe Q) → IsOrderly p → Keeps (process_pipe_term q p)
  unfolding process_pipe_term
  process_pipe_term-Keeps p v = ground arith

  write_delimiter-Keeps : (p : Pipe Q) → IsOrderly p → Keeps (write_delimiter q p)
  unfolding write_delimiter
  write_delimiter-Keeps p v = ground arith

  terminate-Keeps : (d : Bool) (p : Pipe Q) → IsOrderly p → Keeps (terminate q d p)
  unfolding terminate
  terminate-Keeps d p v = ground arith

  -- A pipe that is destroyed has acknowledged the peer's request exactly once, whichever end asked
  -- first and whether or not both did, and it has asked at most once.
  pub process_pipe_term_ack-once :
      (p p' : Pipe Q)
      → IsOrderly p
      → process_pipe_term_ack q p ≡ some p'
      → (count_acks p'.sent ≡ 1) × (count_terms p'.sent ≤ 1) × (p'.out_open ≡ false)
  unfolding process_pipe_term_ack
  process_pipe_term_ack-once p p' v e = ground arith
