-- ===== src/Own/Wraps.antt =====
-- The counters of an object (src/core/own.cpp), of which one wraps around earlier than the other.
use serverlink.Prelude.{
  ◌+◌, ◌≤◌, ◌<◌, ◌^◌, ◌≡◌, refl, arith, Bool, true, false, ==_iff, List, [], ◌∷◌, length, inl, inr,
}
use serverlink.Own.{
  Own, Command, Outcome, running, destroyed, aborted, emit, inc_seqnum, register_term_acks, is_done,
  check_term_acks, process_seqnum, process_term_req, process_own, process_term, terminate,
  unregister_term_ack, process_term_ack, Event, on_inc_seqnum, on_terminate, on_seqnum, on_own,
  on_term_req, on_term, on_term_ack, process_command, run,
}
use serverlink.Own.Ownership.{Outcome-cases}

abbrev pub is_destroyed : Outcome → Bool
is_destroyed (destroyed cs) = true
is_destroyed r = false

is_destroyed-emit : (cs : List Command) (r : Outcome) → is_destroyed (emit cs r) ≡ is_destroyed r
is_destroyed-emit cs (running o ds) = refl
is_destroyed-emit cs (destroyed ds) = refl
is_destroyed-emit cs aborted = refl

-- What the counters of an object that goes on become.
step_seqnums :
    (e : Event) (o o' : Own) (cs : List Command)
    → o.sent_seqnum < 2 ^ 32
    → o.processed_seqnum + 1 < 2 ^ 64
    → process_command e o ≡ running o' cs
    → (o'.sent_seqnum < 2 ^ 32)
      × (o.processed_seqnum ≤ o'.processed_seqnum)
      × (o'.processed_seqnum ≤ o.processed_seqnum + 1)
unfolding process_command inc_seqnum terminate process_term process_seqnum process_own
    process_term_req process_term_ack unregister_term_ack check_term_acks is_done register_term_acks
step_seqnums on_inc_seqnum o o' cs s h eq = ground arith
step_seqnums on_terminate o o' cs s h eq = ground arith
step_seqnums on_seqnum o o' cs s h eq = ground arith
step_seqnums (on_own p) o o' cs s h eq = ground arith
step_seqnums (on_term_req p) o o' cs s h eq = ground arith
step_seqnums (on_term linger) o o' cs s h eq = ground arith
step_seqnums on_term_ack o o' cs s h eq = ground arith

step-is_destroyed :
    (e : Event) (o : Own)
    → o.sent_seqnum < 2 ^ 32
    → o.processed_seqnum + 1 < 2 ^ 64
    → 2 ^ 32 ≤ o.processed_seqnum
    → is_destroyed (process_command e o) ≡ false
unfolding process_command inc_seqnum terminate process_term process_seqnum process_own
    process_term_req process_term_ack unregister_term_ack check_term_acks is_done register_term_acks
step-is_destroyed on_inc_seqnum o s h big = ground arith
step-is_destroyed on_terminate o s h big = ground (arith, ==_iff o.processed_seqnum o.sent_seqnum)
step-is_destroyed on_seqnum o s h big =
    ground (arith, ==_iff (o.processed_seqnum + 1) o.sent_seqnum)
step-is_destroyed (on_own p) o s h big =
    ground (arith, ==_iff (o.processed_seqnum + 1) o.sent_seqnum)
step-is_destroyed (on_term_req p) o s h big = ground arith
step-is_destroyed (on_term linger) o s h big =
    ground (arith, ==_iff o.processed_seqnum o.sent_seqnum)
step-is_destroyed on_term_ack o s h big = ground (arith, ==_iff o.processed_seqnum o.sent_seqnum)

-- An object that has handled 2^32 commands or more is never deleted, whatever happens to it, as long as
-- its 64-bit counter does not wrap around: the counter of the commands that were sent has 32 bits.
pub run-is_destroyed :
    (es : List Event) (o : Own)
    → o.sent_seqnum < 2 ^ 32
    → o.processed_seqnum + length es < 2 ^ 64
    → 2 ^ 32 ≤ o.processed_seqnum
    → is_destroyed (run es o) ≡ false
unfolding run
run-is_destroyed [] o s h big = refl
run-is_destroyed (e ∷ es) o s h big =
    let room : o.processed_seqnum + 1 < 2 ^ 64 = ground arith in
    elim (Outcome-cases (process_command e o)) [
      | inl (o', cs, eq) ↦ ground (
        arith,
        eq,
        step_seqnums e o o' cs s room eq,
        is_destroyed-emit cs (run es o'),
        run-is_destroyed es o',
      )
      | inr (inl (cs, eq)) ↦ ground (arith, eq, step-is_destroyed e o s room big)
      | inr (inr eq) ↦ ground (arith, eq)
    ]
