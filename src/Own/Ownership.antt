-- ===== src/Own/Ownership.antt =====
-- What holds of an object at any time (src/core/own.cpp), and how often its owned objects are told to go.
use serverlink.Prelude.{
  ℕ, ◌+◌, ◌≤◌, ◌≡◌, ◌≢◌, ◌⊎◌, ◌↔◌, refl, ap, arith, Bool, true, false, ◌&&◌, ◌==◌, ==_iff,
  if◌then◌else◌, List, [], ◌∷◌, ◌++◌, map, inl, inr,
}
use serverlink.Prelude.Int.{ℤ}
use serverlink.Prelude.Sets.{has, is_unique, has-erase_other, has-erase, is_unique-erase}
use serverlink.Own.{
  Own, Command, plug, own, term_req, term, term_ack, Outcome, running, destroyed, aborted, emit,
  inc_seqnum, register_term_acks, is_done, ack_owner, check_term_acks, process_seqnum,
  process_term_req, process_own, process_term, terminate, unregister_term_ack, process_term_ack,
  Event, on_inc_seqnum, on_terminate, on_seqnum, on_own, on_term_req, on_term, on_term_ack,
  process_command, run,
}

abbrev is_empty : List ℕ → Bool
is_empty [] = true
is_empty (x ∷ xs) = false

-- An object that terminates owns nothing any more.
abbrev pub is_valid : Own → Bool
is_valid o = is_unique o.owned && (if o.terminating then is_empty o.owned else true)

-- Every handler keeps an object valid.
process_command-is_valid :
    (e : Event) (o o' : Own) (cs : List Command)
    → is_valid o ≡ true
    → process_command e o ≡ running o' cs
    → is_valid o' ≡ true
unfolding process_command inc_seqnum terminate process_term process_seqnum process_own
    process_term_req process_term_ack unregister_term_ack check_term_acks is_done register_term_acks
process_command-is_valid on_inc_seqnum o o' cs v eq = ground arith
process_command-is_valid on_terminate o o' cs v eq = ground arith
process_command-is_valid on_seqnum o o' cs v eq = ground arith
process_command-is_valid (on_own p) o o' cs v eq = ground arith
process_command-is_valid (on_term_req p) o o' cs v eq = ground (arith, is_unique-erase o.owned p)
process_command-is_valid (on_term linger) o o' cs v eq = ground arith
process_command-is_valid on_term_ack o o' cs v eq = ground arith

-- The events that a correct program never sends: a second order to terminate, and an acknowledgement that is
-- not awaited.
abbrev pub is_wrong : Event → Own → Bool
is_wrong (on_term linger) o = o.terminating
is_wrong on_term_ack o = o.term_acks == 0
is_wrong e o = false

-- A valid object fails an assertion just when it is told to terminate a second time or when an
-- acknowledgement comes that it does not wait for; so it owns nothing whenever it deletes itself.
pub process_command-aborted_iff :
    (e : Event) (o : Own)
    → is_valid o ≡ true
    → (process_command e o ≡ aborted) ↔ (is_wrong e o ≡ true)
unfolding process_command inc_seqnum terminate process_term process_seqnum process_own
    process_term_req process_term_ack unregister_term_ack check_term_acks is_done register_term_acks
process_command-aborted_iff on_inc_seqnum o v = ground arith
process_command-aborted_iff on_terminate o v = ground arith
process_command-aborted_iff on_seqnum o v = ground arith
process_command-aborted_iff (on_own p) o v = ground arith
process_command-aborted_iff (on_term_req p) o v = ground arith
process_command-aborted_iff (on_term linger) o v = ground arith
process_command-aborted_iff on_term_ack o v = ground arith

-- How often a child is told to terminate.
abbrev pub terms : List Command → ℕ → ℕ
terms [] p = 0
terms (term q linger ∷ cs) p = (if q == p then 1 else 0) + terms cs p
terms (c ∷ cs) p = terms cs p

-- How often an object comes to own a child.
abbrev pub owns : List Event → ℕ → ℕ
owns [] p = 0
owns (on_own q ∷ es) p = (if q == p then 1 else 0) + owns es p
owns (e ∷ es) p = owns es p

terms-append : (cs ds : List Command) (p : ℕ) → terms (cs ++ ds) p ≡ terms cs p + terms ds p
terms-append [] ds p = ground arith
terms-append (plug q ∷ cs) ds p = terms-append cs ds p
terms-append (own q r ∷ cs) ds p = terms-append cs ds p
terms-append (term_req q r ∷ cs) ds p = terms-append cs ds p
terms-append (term q linger ∷ cs) ds p = ground (arith, terms-append cs ds p)
terms-append (term_ack q ∷ cs) ds p = terms-append cs ds p

terms-map :
    (xs : List ℕ) (linger : ℤ) (p : ℕ)
    → is_unique xs ≡ true
    → terms (map (λ q. term q linger) xs) p ≡ (if has xs p then 1 else 0)
terms-map [] linger p u = refl
terms-map (x ∷ xs) linger p u = ground (arith, ==_iff x p, terms-map xs linger p)

-- 1 for an object that is still owned.
abbrev pub kept : Outcome → ℕ → ℕ
kept (running o cs) p = if has o.owned p then 1 else 0
kept (destroyed cs) p = 0
kept aborted p = 0

abbrev pub sent : Outcome → List Command
sent (running o cs) = cs
sent (destroyed cs) = cs
sent aborted = []

step_terms :
    (e : Event) (o : Own) (p : ℕ)
    → is_valid o ≡ true
    → owns (e ∷ []) p + kept (running o []) p ≤ 1
    → process_command e o ≢ aborted
    → terms (sent (process_command e o)) p + kept (process_command e o) p
      ≡ owns (e ∷ []) p + kept (running o []) p
unfolding process_command inc_seqnum terminate process_term process_seqnum process_own
    process_term_req process_term_ack unregister_term_ack check_term_acks is_done register_term_acks
step_terms on_inc_seqnum o p v h ok = ground arith
step_terms on_terminate o p v h ok =
    ground
      (arith, terms-map o.owned o.linger p, terms-append (map (λ q. term q o.linger) o.owned) [] p)
step_terms on_seqnum o p v h ok = ground arith
step_terms (on_own q) o p v h ok = ground arith
step_terms (on_term_req q) o p v h ok =
    ground (arith, ==_iff q p, has-erase_other o.owned q p, has-erase o.owned q)
step_terms (on_term linger) o p v h ok = ground (
  arith,
  terms-map o.owned linger p,
  terms-append (map (λ q. term q linger) o.owned) [] p,
  terms-append (map (λ q. term q linger) o.owned) (ack_owner o.owner) p,
)
step_terms on_term_ack o p v h ok = ground arith

kept-emit : (cs : List Command) (r : Outcome) (p : ℕ) → kept (emit cs r) p ≡ kept r p
kept-emit cs (running o ds) p = refl
kept-emit cs (destroyed ds) p = refl
kept-emit cs aborted p = refl

pub sent-emit : (cs : List Command) (r : Outcome) → r ≢ aborted → sent (emit cs r) ≡ cs ++ sent r
sent-emit cs (running o ds) ok = refl
sent-emit cs (destroyed ds) ok = refl
sent-emit cs aborted ok = absurd (ok refl)

pub emit-aborted : (cs : List Command) (r : Outcome) → emit cs r ≢ aborted → r ≢ aborted
emit-aborted cs (running o ds) ok = λ e. ok (ap (emit cs) e)
emit-aborted cs (destroyed ds) ok = λ e. ok (ap (emit cs) e)
emit-aborted cs aborted ok = ok

owns-cons : (e : Event) (es : List Event) (p : ℕ) → owns (e ∷ es) p ≡ owns (e ∷ []) p + owns es p
owns-cons on_inc_seqnum es p = ground arith
owns-cons on_terminate es p = ground arith
owns-cons on_seqnum es p = ground arith
owns-cons (on_own q) es p = ground arith
owns-cons (on_term_req q) es p = ground arith
owns-cons (on_term linger) es p = ground arith
owns-cons on_term_ack es p = ground arith

pub Outcome-cases :
    (r : Outcome)
    → ((o : Own) × (cs : List Command) × (r ≡ running o cs))
      ⊎ ((cs : List Command) × (r ≡ destroyed cs))
      ⊎ (r ≡ aborted)
Outcome-cases (running o cs) = inl (o, cs, refl)
Outcome-cases (destroyed cs) = inr (inl (cs, refl))
Outcome-cases aborted = inr (inr refl)

-- Over a run in which no assertion fails, from a valid object, a child that is owned at most once is told
-- to terminate as often as it came to be owned, less one if the object still owns it; so an object that
-- deletes itself told each of its children just once.
pub run_terms :
    (es : List Event) (o : Own) (p : ℕ)
    → is_valid o ≡ true
    → owns es p + kept (running o []) p ≤ 1
    → run es o ≢ aborted
    → terms (sent (run es o)) p + kept (run es o) p ≡ owns es p + kept (running o []) p
unfolding run
run_terms [] o p v h ok = refl
run_terms (e ∷ es) o p v h ok = elim (Outcome-cases (process_command e o)) [
  | inl (o', cs, eq) ↦ ground (
    arith,
    eq,
    process_command-is_valid e o o' cs v eq,
    step_terms e o p v,
    owns-cons e es p,
    emit-aborted cs (run es o'),
    sent-emit cs (run es o'),
    kept-emit cs (run es o') p,
    terms-append cs (sent (run es o')) p,
    run_terms es o' p,
  )
  | inr (inl (cs, eq)) ↦ ground (arith, eq, step_terms e o p v)
  | inr (inr eq) ↦ ground (arith, eq)
]
