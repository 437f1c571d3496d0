-- ===== src/Own/Acks.antt =====
-- When an object deletes itself (src/core/own.cpp): after all acknowledgements, with one of its own.
use serverlink.Prelude.{
  ℕ, ◌+◌, ◌≡◌, ◌≢◌, refl, arith, ==_iff, Option, none, some, List, [], ◌∷◌, ◌++◌, length, map, inl,
  inr,
}
use serverlink.Prelude.Int.{ℤ}
use serverlink.Own.{
  Own, Command, plug, own, term_req, term, term_ack, Outcome, running, destroyed, aborted, emit,
  inc_seqnum, register_term_acks, is_done, ack_owner, check_term_acks, process_seqnum,
  process_term_req, process_own, process_term, terminate, unregister_term_ack, process_term_ack,
  Event, on_inc_seqnum, on_terminate, on_seqnum, on_own, on_term_req, on_term, on_term_ack,
  process_command, run,
}
use serverlink.Own.Ownership.{Outcome-cases, sent, sent-emit, emit-aborted}

-- How many objects are told to terminate.
abbrev pub all_terms : List Command → ℕ
all_terms [] = 0
all_terms (term q linger ∷ cs) = 1 + all_terms cs
all_terms (c ∷ cs) = all_terms cs

abbrev pub owner_acks : List Command → ℕ
owner_acks [] = 0
owner_acks (term_ack q ∷ cs) = 1 + owner_acks cs
owner_acks (c ∷ cs) = owner_acks cs

abbrev pub acks : List Event → ℕ
acks [] = 0
acks (on_term_ack ∷ es) = 1 + acks es
acks (e ∷ es) = acks es

-- The acknowledgements that are awaited; none by an object that is deleted.
abbrev pub awaited : Outcome → ℕ
awaited (running o cs) = o.term_acks
awaited (destroyed cs) = 0
awaited aborted = 0

all_terms-append : (cs ds : List Command) → all_terms (cs ++ ds) ≡ all_terms cs + all_terms ds
all_terms-append [] ds = ground arith
all_terms-append (plug q ∷ cs) ds = all_terms-append cs ds
all_terms-append (own q r ∷ cs) ds = all_terms-append cs ds
all_terms-append (term_req q r ∷ cs) ds = all_terms-append cs ds
all_terms-append (term q linger ∷ cs) ds = ground (arith, all_terms-append cs ds)
all_terms-append (term_ack q ∷ cs) ds = all_terms-append cs ds

owner_acks-append : (cs ds : List Command) → owner_acks (cs ++ ds) ≡ owner_acks cs + owner_acks ds
owner_acks-append [] ds = ground arith
owner_acks-append (plug q ∷ cs) ds = owner_acks-append cs ds
owner_acks-append (own q r ∷ cs) ds = owner_acks-append cs ds
owner_acks-append (term_req q r ∷ cs) ds = owner_acks-append cs ds
owner_acks-append (term q linger ∷ cs) ds = owner_acks-append cs ds
owner_acks-append (term_ack q ∷ cs) ds = ground (arith, owner_acks-append cs ds)

all_terms-map : (xs : List ℕ) (linger : ℤ) → all_terms (map (λ q. term q linger) xs) ≡ length xs
all_terms-map [] linger = refl
all_terms-map (x ∷ xs) linger = ground (arith, all_terms-map xs linger)

owner_acks-map : (xs : List ℕ) (linger : ℤ) → owner_acks (map (λ q. term q linger) xs) ≡ 0
owner_acks-map [] linger = refl
owner_acks-map (x ∷ xs) linger = owner_acks-map xs linger

acks-cons : (e : Event) (es : List Event) → acks (e ∷ es) ≡ acks (e ∷ []) + acks es
acks-cons on_inc_seqnum es = ground arith
acks-cons on_terminate es = ground arith
acks-cons on_seqnum es = ground arith
acks-cons (on_own q) es = ground arith
acks-cons (on_term_req q) es = ground arith
acks-cons (on_term linger) es = ground arith
acks-cons on_term_ack es = ground arith

awaited-emit : (cs : List Command) (r : Outcome) → awaited (emit cs r) ≡ awaited r
awaited-emit cs (running o ds) = refl
awaited-emit cs (destroyed ds) = refl
awaited-emit cs aborted = refl

step_acks :
    (e : Event) (o : Own)
    → process_command e o ≢ aborted
    → all_terms (sent (process_command e o)) + o.term_acks
      ≡ acks (e ∷ []) + awaited (process_command e o)
unfolding process_command inc_seqnum terminate process_term process_seqnum process_own
    process_term_req process_term_ack unregister_term_ack check_term_acks is_done register_term_acks
step_acks on_inc_seqnum o ok = ground arith
step_acks on_terminate o ok = ground (
  arith,
  all_terms-map o.owned o.linger,
  all_terms-append (map (λ q. term q o.linger) o.owned) [],
)
step_acks on_seqnum o ok = ground (arith, ==_iff o.term_acks 0)
step_acks (on_own q) o ok = ground (arith, ==_iff o.term_acks 0)
step_acks (on_term_req q) o ok = ground arith
step_acks (on_term linger) o ok = ground (
  arith,
  all_terms-map o.owned linger,
  all_terms-append (map (λ q. term q linger) o.owned) [],
  all_terms-append (map (λ q. term q linger) o.owned) (ack_owner o.owner),
)
step_acks on_term_ack o ok = ground arith

-- Over a run in which no assertion fails, the objects that were told to terminate, with those that were
-- awaited before, are as many as the acknowledgements that came, with those that are awaited; so an
-- object that deletes itself has all of its acknowledgements.
pub run_acks :
    (es : List Event) (o : Own)
    → run es o ≢ aborted
    → all_terms (sent (run es o)) + o.term_acks ≡ acks es + awaited (run es o)
unfolding run
run_acks [] o ok = ground arith
run_acks (e ∷ es) o ok = elim (Outcome-cases (process_command e o)) [
  | inl (o', cs, eq) ↦ ground (
    arith,
    eq,
    step_acks e o,
    acks-cons e es,
    emit-aborted cs (run es o'),
    sent-emit cs (run es o'),
    awaited-emit cs (run es o'),
    all_terms-append cs (sent (run es o')),
    run_acks es o',
  )
  | inr (inl (cs, eq)) ↦ ground (arith, eq, step_acks e o)
  | inr (inr eq) ↦ ground (arith, eq)
]

-- 1 for an object that has an owner and deletes itself.
abbrev pub owed : Option ℕ → Outcome → ℕ
owed owner (running o cs) = 0
owed none (destroyed cs) = 0
owed (some p) (destroyed cs) = 1
owed owner aborted = 0

owed-emit : (q : Option ℕ) (cs : List Command) (r : Outcome) → owed q (emit cs r) ≡ owed q r
owed-emit q cs (running o ds) = refl
owed-emit none cs (destroyed ds) = refl
owed-emit (some p) cs (destroyed ds) = refl
owed-emit q cs aborted = refl

owner_of : Outcome → Option ℕ → Option ℕ
owner_of (running o cs) q = o.owner
owner_of r q = q

step_owner :
    (e : Event) (o o' : Own) (cs : List Command)
    → process_command e o ≡ running o' cs
    → o'.owner ≡ o.owner
unfolding process_command inc_seqnum terminate process_term process_seqnum process_own
    process_term_req process_term_ack unregister_term_ack check_term_acks is_done register_term_acks
step_owner on_inc_seqnum o o' cs eq = ground arith
step_owner on_terminate o o' cs eq = ground arith
step_owner on_seqnum o o' cs eq = ground arith
step_owner (on_own p) o o' cs eq = ground arith
step_owner (on_term_req p) o o' cs eq = ground arith
step_owner (on_term linger) o o' cs eq = ground arith
step_owner on_term_ack o o' cs eq = ground arith

step_owed :
    (e : Event) (o : Own)
    → process_command e o ≢ aborted
    → owner_acks (sent (process_command e o)) ≡ owed o.owner (process_command e o)
unfolding process_command inc_seqnum terminate process_term process_seqnum process_own
    process_term_req process_term_ack unregister_term_ack check_term_acks is_done register_term_acks
step_owed on_inc_seqnum o ok = ground arith
step_owed on_terminate o ok = ground (
  arith,
  owner_acks-map o.owned o.linger,
  owner_acks-append (map (λ q. term q o.linger) o.owned) [],
)
step_owed on_seqnum o ok = ground arith
step_owed (on_own q) o ok = ground arith
step_owed (on_term_req q) o ok = ground arith
step_owed (on_term linger) o ok = ground (
  arith,
  owner_acks-map o.owned linger,
  owner_acks-append (map (λ q. term q linger) o.owned) [],
  owner_acks-append (map (λ q. term q linger) o.owned) (ack_owner o.owner),
)
step_owed on_term_ack o ok = ground arith

-- Over a run in which no assertion fails, an object sends its owner one acknowledgement if it deletes itself
-- and has an owner, and none otherwise.
pub run-owed :
    (es : List Event) (o : Own)
    → run es o ≢ aborted
    → owner_acks (sent (run es o)) ≡ owed o.owner (run es o)
unfolding run
run-owed [] o ok = ground arith
run-owed (e ∷ es) o ok = elim (Outcome-cases (process_command e o)) [
  | inl (o', cs, eq) ↦ ground (
    arith,
    eq,
    step_owed e o,
    step_owner e o o' cs eq,
    emit-aborted cs (run es o'),
    sent-emit cs (run es o'),
    owed-emit o.owner cs (run es o'),
    owner_acks-append cs (sent (run es o')),
    run-owed es o',
  )
  | inr (inl (cs, eq)) ↦ ground (arith, eq, step_owed e o)
  | inr (inr eq) ↦ ground (arith, eq)
]
