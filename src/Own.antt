-- ===== src/Own.antt =====
-- src/core/own.cpp over src/core/object.cpp: the tree of objects, in which an object goes when its owned
-- objects have gone and the commands that were sent to it are handled. Objects are numbers. What the
-- classes above do in their own handlers is not here; `_term_acks` is taken to stay within an `int`.
pub mod Ownership
pub mod Acks
pub mod Wraps
use serverlink.Prelude.{
  ℕ, zero, suc, ◌+◌, ◌-◌, ◌%◌, ◌^◌, ◌==◌, ltb, Bool, true, false, ◌&&◌, ◌||◌, if◌then◌else◌, Option,
  none, some, List, [], ◌∷◌, ◌++◌, length, map,
}
use serverlink.Prelude.Int.{ℤ, pos, negsuc}
use serverlink.Prelude.Sets.{has, insert, erase}

-- `sent_seqnum` is a `uint32_t`, `processed_seqnum` a `uint64_t`; `name` is `this`.
pub record Own : Type 0 where
  pub name : ℕ
  pub terminating : Bool
  pub sent_seqnum : ℕ
  pub processed_seqnum : ℕ
  pub owner : Option ℕ
  pub owned : List ℕ
  pub term_acks : ℕ
  pub linger : ℤ

unfoldable pub new_own : ℕ → ℤ → Own
new_own name linger = record {
  name = name;
  terminating = false;
  sent_seqnum = 0;
  processed_seqnum = 0;
  owner = none;
  owned = [];
  term_acks = 0;
  linger = linger;
}

-- The commands that an object sends, each with its destination first.
pub data Command : Type 0 where
  plug : ℕ → Command
  own : ℕ → ℕ → Command
  term_req : ℕ → ℕ → Command
  term : ℕ → ℤ → Command
  term_ack : ℕ → Command

-- An object goes on, deletes itself, or fails an assertion.
pub data Outcome : Type 0 where
  running : Own → List Command → Outcome
  destroyed : List Command → Outcome
  aborted : Outcome

abbrev pub emit : List Command → Outcome → Outcome
emit cs (running o ds) = running o (cs ++ ds)
emit cs (destroyed ds) = destroyed (cs ++ ds)
emit cs aborted = aborted

unfoldable pub set_owner : ℕ → Own → Option Own
set_owner p o = elim o.owner [ none ↦ some (record o { owner = some p }) | some q ↦ none ]

unfoldable pub inc_seqnum : Own → Own
inc_seqnum o = record o { sent_seqnum = (o.sent_seqnum + 1) % 2 ^ 32 }

-- The parent, its child and the commands that were sent; none if the child has an owner.
unfoldable pub launch_child : Own → Own → Option (Own × Own × List Command)
launch_child o c = elim (set_owner o.name c) [
  | none ↦ none
  | some c' ↦ some (inc_seqnum o, inc_seqnum c', plug c.name ∷ own o.name c.name ∷ [])
]

unfoldable pub register_term_acks : ℕ → Own → Own
register_term_acks n o = record o { term_acks = o.term_acks + n }

unfoldable pub is_done : Own → Bool
is_done o = o.terminating && (o.processed_seqnum == o.sent_seqnum) && (o.term_acks == 0)

abbrev pub ack_owner : Option ℕ → List Command
ack_owner none = []
ack_owner (some p) = term_ack p ∷ []

abbrev pub destroy : Own → Outcome
destroy o = elim o.owned [ [] ↦ destroyed (ack_owner o.owner) | p ∷ ps ↦ aborted ]

unfoldable pub check_term_acks : Own → Outcome
check_term_acks o = if is_done o then destroy o else running o []

unfoldable pub process_seqnum : Own → Outcome
process_seqnum o =
    check_term_acks (record o { processed_seqnum = (o.processed_seqnum + 1) % 2 ^ 64 })

unfoldable pub process_term_req : ℕ → Own → Outcome
process_term_req p o =
    if o.terminating
    then running o []
    else if has o.owned p
    then running (register_term_acks 1 (record o { owned = erase o.owned p }))
        (term p o.linger ∷ [])
    else running o []

unfoldable pub term_child : ℕ → Own → Outcome
term_child = process_term_req

unfoldable pub process_own : ℕ → Own → Own × List Command
process_own p o =
    if o.terminating
    then (register_term_acks 1 o, term p (pos 0) ∷ [])
    else (record o { owned = insert o.owned p }, [])

unfoldable pub process_term : ℤ → Own → Outcome
process_term linger o =
    if o.terminating
    then aborted
    else emit (map (λ p. term p linger) o.owned) (
        check_term_acks
          (record (register_term_acks (length o.owned) o) { owned = []; terminating = true }))

unfoldable pub terminate : Own → Outcome
terminate o = if o.terminating then running o [] else elim o.owner [
  | none ↦ process_term o.linger o
  | some p ↦ running o (term_req p o.name ∷ [])
]

unfoldable pub unregister_term_ack : Own → Outcome
unregister_term_ack o =
    if ltb 0 o.term_acks
    then check_term_acks (record o { term_acks = o.term_acks - 1 })
    else aborted

unfoldable pub process_term_ack : Own → Outcome
process_term_ack = unregister_term_ack

-- What reaches an object: a call, or a command that its thread hands to `process_command`. Those that
-- only count, such as plug and attach, are `on_seqnum`.
pub data Event : Type 0 where
  on_inc_seqnum : Event
  on_terminate : Event
  on_seqnum : Event
  on_own : ℕ → Event
  on_term_req : ℕ → Event
  on_term : ℤ → Event
  on_term_ack : Event

unfoldable pub process_command : Event → Own → Outcome
process_command on_inc_seqnum o = running (inc_seqnum o) []
process_command on_terminate o = terminate o
process_command on_seqnum o = process_seqnum o
process_command (on_own p) o = emit (process_own p o).1 (process_seqnum (process_own p o).0)
process_command (on_term_req p) o = process_term_req p o
process_command (on_term linger) o = process_term linger o
process_command on_term_ack o = process_term_ack o

-- The use of an object that was deleted is an error.
unfoldable pub run : List Event → Own → Outcome
run [] o = running o []
run (e ∷ es) o = elim (process_command e o) [
  | running o' cs ↦ emit cs (run es o')
  | destroyed cs ↦ (elim es [ [] ↦ destroyed cs | x ∷ xs ↦ aborted ])
  | aborted ↦ aborted
]
