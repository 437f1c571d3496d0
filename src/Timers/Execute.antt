-- ===== src/Timers/Execute.antt =====
-- What a call of `execute` does (src/util/timers.cpp): which handlers it runs, and when it ends.
use serverlink.Prelude.{
  ℕ, zero, suc, ◌+◌, ◌≤◌, ◌<◌, ◌^◌, ◌≡◌, refl, arith, Bool, true, false, not, ◌&&◌, ltb, leb,
  ==_iff, if◌then◌else◌, Option, none, some, List, [], ◌∷◌, length, Bool-cases, Option-cases, ◌⊎◌,
  inl, inr,
}
use serverlink.Prelude.Sets.{has, erase, is_unique, has-erase_other}
use serverlink.Timers.{
  Timer, Timers, insert_timer, expiry, Run, ran, execute_loop, first_key, execute,
}
use serverlink.Timers.Order.{from, is_sorted, from_le, is_sorted-insert}

-- Each interval is positive, and the next key does not wrap around.
abbrev pub are_proper : ℕ → List Timer → Bool
are_proper now [] = true
are_proper now (t ∷ ts) = ltb 0 t.interval && ltb (now + t.interval) (2 ^ 64) && are_proper now ts

-- The timers whose time has come.
abbrev pub due : ℕ → List Timer → ℕ
due now [] = 0
due now (t ∷ ts) = (if leb t.when now then 1 else 0) + due now ts

-- The timers at the front whose time has come, less the cancelled ones.
abbrev pub fires : ℕ → List Timer → List ℕ → List ℕ
fires now [] cancelled = []
fires now (t ∷ ts) cancelled =
    if has cancelled t.timer_id
    then fires now ts (erase cancelled t.timer_id)
    else if leb t.when now
    then t.timer_id ∷ fires now ts cancelled
    else []

due-insert :
    (now : ℕ) (ts : List Timer) (t : Timer)
    → due now (insert_timer ts t) ≡ (if leb t.when now then 1 else 0) + due now ts
due-insert now [] t = ground arith
due-insert now (x ∷ xs) t = ground (arith, due-insert now xs t)

are_proper-insert :
    (now : ℕ) (ts : List Timer) (t : Timer)
    → are_proper now (insert_timer ts t)
      ≡ (ltb 0 t.interval && ltb (now + t.interval) (2 ^ 64) && are_proper now ts)
are_proper-insert now [] t = ground arith
are_proper-insert now (x ∷ xs) t = ground (arith, are_proper-insert now xs t)

fires-from :
    (now : ℕ) (ts : List Timer) (cancelled : List ℕ)
    → from (now + 1) ts ≡ true
    → fires now ts cancelled ≡ []
fires-from now [] cancelled h = refl
fires-from now (x ∷ xs) cancelled h =
    ground (arith, fires-from now xs cancelled, fires-from now xs (erase cancelled x.timer_id))

-- A timer that is put back after the present does not fire again.
fires-insert :
    (now : ℕ) (ts : List Timer) (t : Timer) (cancelled : List ℕ)
    → now < t.when
    → is_sorted ts ≡ true
    → fires now (insert_timer ts t) cancelled ≡ fires now ts cancelled
fires-insert now [] t cancelled h s = ground arith
fires-insert now (x ∷ xs) t cancelled h s = ground (
  arith,
  fires-insert now xs t cancelled h,
  fires-insert now xs t (erase cancelled x.timer_id) h,
  fires-from now (x ∷ xs) cancelled,
  fires-from now xs (erase cancelled t.timer_id),
  fires-from now xs (erase cancelled x.timer_id),
  fires-from now (x ∷ xs) (erase cancelled t.timer_id),
  from_le (now + 1) x.when xs,
)

-- The handlers that ran.
abbrev pub fired_of : Run → Option (List ℕ)
fired_of none = none
fired_of (some (fired, ts, cancelled)) = some fired

fired_of-ran :
    (i : ℕ) (r : Run) (l : List ℕ) → fired_of r ≡ some l → fired_of (ran i r) ≡ some (i ∷ l)
fired_of-ran i none l eq = ground arith
fired_of-ran i (some (fired, ts, cancelled)) l eq = ground arith

length-erase_lt : (xs : List ℕ) (p : ℕ) → has xs p ≡ true → length (erase xs p) + 1 ≡ length xs
length-erase_lt [] p h = ground arith
length-erase_lt (x ∷ xs) p h = ground (arith, length-erase_lt xs p)

again_of : ℕ → Timer → Timer
again_of now t = record t { when = expiry now t.interval }

loop_fires :
    (f now first : ℕ) (ts : List Timer) (cancelled : List ℕ)
    → is_sorted ts ≡ true
    → are_proper now ts ≡ true
    → due now ts + length cancelled < f
    → fired_of (execute_loop f now first [] ts cancelled) ≡ some (fires now ts cancelled)
unfolding execute_loop
loop_fires zero now first ts cancelled s p h = ground arith
loop_fires (suc f) now first [] cancelled s p h = refl
loop_fires (suc f) now first (t ∷ ts) cancelled s p h =
    let again : Timer = record t { when = expiry now t.interval } in
    elim (Bool-cases (has cancelled t.timer_id)) [
      | inl gone ↦ ground (
        arith,
        gone,
        length-erase_lt cancelled t.timer_id gone,
        loop_fires f now first ts (erase cancelled t.timer_id),
      )
      | inr live ↦ elim (Bool-cases (ltb now t.when)) [
        | inl late ↦ ground (arith, live, late)
        | inr due_now ↦ ground (
          arith,
          live,
          due_now,
          is_sorted-insert ts again,
          are_proper-insert now ts again,
          due-insert now ts again,
          fires-insert now ts again cancelled,
          fired_of-ran t.timer_id (execute_loop f now first [] (insert_timer ts again) cancelled)
              (fires now ts cancelled),
          loop_fires f now first (insert_timer ts again) cancelled,
        )
      ]
    ]

abbrev pub ids : List Timer → List ℕ
ids [] = []
ids (t ∷ ts) = t.timer_id ∷ ids ts

-- The timers whose time has come and that are not cancelled.
abbrev pub due_live : ℕ → List ℕ → List Timer → List ℕ
due_live now cancelled [] = []
due_live now cancelled (t ∷ ts) =
    if leb t.when now && not (has cancelled t.timer_id)
    then t.timer_id ∷ due_live now cancelled ts
    else due_live now cancelled ts

due_live-erase :
    (now i : ℕ) (cancelled : List ℕ) (ts : List Timer)
    → has (ids ts) i ≡ false
    → due_live now (erase cancelled i) ts ≡ due_live now cancelled ts
due_live-erase now i cancelled [] h = refl
due_live-erase now i cancelled (t ∷ ts) h = ground (
  arith,
  ==_iff t.timer_id i,
  has-erase_other cancelled i t.timer_id,
  due_live-erase now i cancelled ts,
)

due_live-from :
    (now : ℕ) (cancelled : List ℕ) (ts : List Timer)
    → from (now + 1) ts ≡ true
    → due_live now cancelled ts ≡ []
due_live-from now cancelled [] h = refl
due_live-from now cancelled (t ∷ ts) h = ground (arith, due_live-from now cancelled ts)

fires_lem :
    (now : ℕ) (ts : List Timer) (cancelled : List ℕ)
    → is_sorted ts ≡ true
    → is_unique (ids ts) ≡ true
    → fires now ts cancelled ≡ due_live now cancelled ts
fires_lem now [] cancelled s u = refl
fires_lem now (t ∷ ts) cancelled s u = ground (
  arith,
  fires_lem now ts cancelled,
  fires_lem now ts (erase cancelled t.timer_id),
  due_live-erase now t.timer_id cancelled ts,
  due_live-from now cancelled ts,
  from_le (now + 1) t.when ts,
)

due_le : (now : ℕ) (ts : List Timer) → due now ts ≤ length ts
due_le now [] = ground arith
due_le now (t ∷ ts) = ground (arith, due_le now ts)

abbrev pub fired_by : Option (List ℕ × Timers) → Option (List ℕ)
fired_by none = none
fired_by (some (fired, s)) = some fired

Run-cases : (r : Run) → (r ≡ none) ⊎ ((a : List ℕ × List Timer × List ℕ) × (r ≡ some a))
Run-cases = Option-cases

fired_by-execute :
    (fuel now : ℕ) (s : Timers)
    → fired_by (execute fuel now s)
      ≡ fired_of (execute_loop fuel now (first_key s.timers) [] s.timers s.cancelled_timers)
unfolding execute
fired_by-execute fuel now s =
    ground
      (arith, Run-cases (execute_loop fuel now (first_key s.timers) [] s.timers s.cancelled_timers))

-- A round for each timer and each cancelled one is enough for `execute` to end, when the timers are in
-- order, have an identifier each and positive intervals, and no next key wraps around; and it runs the
-- handlers of just the timers whose time has come and that are not cancelled, in order and once each.
pub execute_lem :
    (fuel now : ℕ) (s : Timers)
    → is_sorted s.timers ≡ true
    → is_unique (ids s.timers) ≡ true
    → are_proper now s.timers ≡ true
    → length s.timers + length s.cancelled_timers < fuel
    → fired_by (execute fuel now s) ≡ some (due_live now s.cancelled_timers s.timers)
execute_lem fuel now s sorted unique proper h = ground (
  arith,
  fired_by-execute fuel now s,
  due_le now s.timers,
  loop_fires fuel now (first_key s.timers) s.timers s.cancelled_timers,
  fires_lem now s.timers s.cancelled_timers sorted unique,
)
