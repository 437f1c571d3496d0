-- ===== src/Timers.antt =====
-- src/util/timers.cpp: timers that run their handlers again and again. The clock is an argument of each
-- operation, and a handler is a number that `execute` reports; handlers that use the timers themselves
-- are not covered, nor are more timers than an `int` counts.
pub mod Order
pub mod Execute
pub mod Idle
use serverlink.Prelude.{
  ℕ, zero, suc, ◌+◌, ◌-◌, ◌%◌, ◌^◌, ◌==◌, ltb, leb, Bool, true, false, if◌then◌else◌, Option, none,
  some, List, [], ◌∷◌, ◌++◌,
}
use serverlink.Prelude.Sets.{has, insert, erase}

-- A timer, with its key in the map.
pub record Timer : Type 0 where
  pub when : ℕ
  pub timer_id : ℕ
  pub interval : ℕ
  pub handler : ℕ

-- The timers stand in the order of their keys, those with equal keys in the order they came in.
pub record Timers : Type 0 where
  pub next_timer_id : ℕ
  pub timers : List Timer
  pub cancelled_timers : List ℕ

unfoldable pub new_timers : Timers
new_timers = record { next_timer_id = 0; timers = []; cancelled_timers = [] }

pub data Errno : Type 0 where
  efault : Errno
  einval : Errno

pub data Result : Type 0 where
  ok : ℕ → Result
  fail : Errno → Result

abbrev pub insert_timer : List Timer → Timer → List Timer
insert_timer [] t = t ∷ []
insert_timer (x ∷ xs) t = if ltb t.when x.when then t ∷ x ∷ xs else x ∷ insert_timer xs t

abbrev pub expiry : ℕ → ℕ → ℕ
expiry now interval = (now + interval) % 2 ^ 64

unfoldable pub add : ℕ → ℕ → Option ℕ → Timers → Result × Timers
add now interval none s = (fail efault, s)
add now interval (some handler) s =
    let timer_id = s.next_timer_id + 1 in
    (
      ok timer_id,
      record s {
        next_timer_id = timer_id;
        timers = insert_timer s.timers (record {
          when = expiry now interval;
          timer_id = timer_id;
          interval = interval;
          handler = handler;
        });
      },
    )

abbrev pub find_if : List Timer → ℕ → Option Timer
find_if [] timer_id = none
find_if (x ∷ xs) timer_id = if x.timer_id == timer_id then some x else find_if xs timer_id

abbrev pub erase_timer : List Timer → ℕ → List Timer
erase_timer [] timer_id = []
erase_timer (x ∷ xs) timer_id = if x.timer_id == timer_id then xs else x ∷ erase_timer xs timer_id

unfoldable pub cancel : ℕ → Timers → Result × Timers
cancel timer_id s = elim (find_if s.timers timer_id) [
  | none ↦ (fail einval, s)
  | some t ↦
      (if has s.cancelled_timers timer_id
        then (fail einval, s)
        else (ok 0, record s { cancelled_timers = insert s.cancelled_timers timer_id }))
]

abbrev pub restart : ℕ → ℕ → Timer → Timers → Timers
restart now interval t s = record s {
  timers =
      insert_timer (erase_timer s.timers t.timer_id)
        (record t { when = expiry now interval; interval = interval });
}

unfoldable pub set_interval : ℕ → ℕ → ℕ → Timers → Result × Timers
set_interval now timer_id interval s = elim (find_if s.timers timer_id) [
  | none ↦ (fail einval, s)
  | some t ↦ (ok 0, restart now interval t s)
]

unfoldable pub reset : ℕ → ℕ → Timers → Result × Timers
reset now timer_id s = elim (find_if s.timers timer_id) [
  | none ↦ (fail einval, s)
  | some t ↦ (ok 0, restart now t.interval t s)
]

-- The difference of two `uint64_t` as a `long`, and 0 for a negative one.
abbrev pub delay : ℕ → ℕ → ℕ
delay now when = let d = (when + 2 ^ 64 - now) % 2 ^ 64 in if ltb d (2 ^ 63) then d else 0

-- The cancelled timers at the front go; none stands for -1, when no timer is left.
abbrev pub timeout_loop : ℕ → List Timer → List ℕ → Option ℕ × List Timer × List ℕ
timeout_loop now [] cancelled = (none, [], cancelled)
timeout_loop now (t ∷ ts) cancelled =
    if has cancelled t.timer_id
    then timeout_loop now ts (erase cancelled t.timer_id)
    else (some (delay now t.when), t ∷ ts, cancelled)

unfoldable pub timeout : ℕ → Timers → Option ℕ × Timers
timeout now s =
    let r = timeout_loop now s.timers s.cancelled_timers in
    (r.0, record s { timers = r.1; cancelled_timers = r.2 })

pub data Visit : Type 0 where
  skip : Visit
  stop : Visit
  fire : Visit

abbrev pub visit : ℕ → List ℕ → Timer → Visit
visit now cancelled t =
    if has cancelled t.timer_id then skip else if ltb now t.when then stop else fire

-- Where a timer that has fired goes: among those to visit, in front of the first one of the run, or, when
-- its key has wrapped around to one between, among those that the run erases.
abbrev pub insert_ahead : ℕ → ℕ → List Timer → Timer → List Timer
insert_ahead first current ts t = if leb current t.when then insert_timer ts t else ts

abbrev pub insert_before : ℕ → ℕ → List Timer → Timer → List Timer
insert_before first current early t =
    if leb current t.when then early else if ltb t.when first then insert_timer early t else early

-- The handlers that ran, the timers left and the cancelled ones; none when the fuel is used up.
abbrev pub Run : Type 0
Run = Option (List ℕ × List Timer × List ℕ)

abbrev pub ran : ℕ → Run → Run
ran timer_id none = none
ran timer_id (some (fired, ts, cancelled)) = some (timer_id ∷ fired, ts, cancelled)

unfoldable pub execute_loop : ℕ → ℕ → ℕ → List Timer → List Timer → List ℕ → Run
execute_loop zero now first early ts cancelled = none
execute_loop (suc f) now first early [] cancelled = some ([], early, cancelled)
execute_loop (suc f) now first early (t ∷ ts) cancelled = elim (visit now cancelled t) [
  | skip ↦ execute_loop f now first early ts (erase cancelled t.timer_id)
  | stop ↦ some ([], early ++ t ∷ ts, cancelled)
  | fire ↦
      (let again : Timer = record t { when = expiry now t.interval } in
        ran t.timer_id (
          execute_loop f now first (insert_before first t.when early again)
            (insert_ahead first t.when ts again) cancelled))
]

abbrev pub first_key : List Timer → ℕ
first_key [] = 0
first_key (t ∷ ts) = t.when

unfoldable pub execute : ℕ → ℕ → Timers → Option (List ℕ × Timers)
execute fuel now s =
    elim (execute_loop fuel now (first_key s.timers) [] s.timers s.cancelled_timers) [
      | none ↦ none
      | some (fired, ts, cancelled) ↦
          some (fired, record s { timers = ts; cancelled_timers = cancelled })
    ]
