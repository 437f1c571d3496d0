-- ===== src/Timers/Idle.antt =====
-- Timers without an interval (src/util/timers.cpp).
use serverlink.Prelude.{
  ℕ, zero, suc, ◌+◌, ◌<◌, ◌^◌, ◌≡◌, refl, arith, Bool, true, false, not, ◌&&◌, ◌||◌, leb, ◌==◌,
  ==_iff, none, List, [], ◌∷◌, Bool-cases, inl, inr,
}
use serverlink.Prelude.Sets.{has, erase, has-erase-false}
use serverlink.Timers.{
  Timer, Timers, insert_timer, expiry, insert_ahead, insert_before, execute_loop, first_key,
  execute,
}
use serverlink.Timers.Order.{from, is_sorted, from_le, is_sorted-insert}

-- Some timer whose time has come has the interval 0 and is not cancelled.
abbrev pub has_idle : ℕ → List ℕ → List Timer → Bool
has_idle now cancelled [] = false
has_idle now cancelled (t ∷ ts) =
    (leb t.when now && (t.interval == 0) && not (has cancelled t.timer_id))
    || has_idle now cancelled ts

has_idle-insert :
    (now : ℕ) (cancelled : List ℕ) (ts : List Timer) (t : Timer)
    → has_idle now cancelled (insert_timer ts t) ≡ (
        (leb t.when now && (t.interval == 0) && not (has cancelled t.timer_id))
        || has_idle now cancelled ts)
has_idle-insert now cancelled [] t = ground arith
has_idle-insert now cancelled (x ∷ xs) t = ground (arith, has_idle-insert now cancelled xs t)

has_idle-erase :
    (now i : ℕ) (cancelled : List ℕ) (ts : List Timer)
    → has_idle now cancelled ts ≡ true
    → has_idle now (erase cancelled i) ts ≡ true
has_idle-erase now i cancelled [] h = h
has_idle-erase now i cancelled (t ∷ ts) h =
    ground (arith, has-erase-false cancelled i t.timer_id, has_idle-erase now i cancelled ts)

from_idle :
    (now : ℕ) (cancelled : List ℕ) (ts : List Timer)
    → has_idle now cancelled ts ≡ true
    → from (now + 1) ts ≡ false
from_idle now cancelled [] h = ground arith
from_idle now cancelled (t ∷ ts) h = ground (arith, from_idle now cancelled ts)

loop-idle :
    (f now first : ℕ) (early ts : List Timer) (cancelled : List ℕ)
    → now < 2 ^ 64
    → is_sorted ts ≡ true
    → has_idle now cancelled ts ≡ true
    → execute_loop f now first early ts cancelled ≡ none
unfolding execute_loop
loop-idle zero now first early ts cancelled w s h = refl
loop-idle (suc f) now first early [] cancelled w s h = ground arith
loop-idle (suc f) now first early (t ∷ ts) cancelled w s h =
    let again : Timer = record t { when = expiry now t.interval } in
    elim (Bool-cases (has cancelled t.timer_id)) [
      | inl gone ↦ ground (
        arith,
        gone,
        has_idle-erase now t.timer_id cancelled ts,
        loop-idle f now first early ts (erase cancelled t.timer_id),
      )
      | inr live ↦ ground (
        arith,
        live,
        ==_iff t.interval 0,
        from_idle now cancelled ts,
        from_le (now + 1) t.when ts,
        is_sorted-insert ts again,
        has_idle-insert now cancelled ts again,
        loop-idle f now first (insert_before first t.when early again)
            (insert_ahead first t.when ts again) cancelled,
      )
    ]

-- With a timer of interval 0 whose time has come and that is not cancelled, `execute` does not end, however
-- much fuel it has: the timer is put back at the present time and found again.
pub execute-idle :
    (fuel now : ℕ) (s : Timers)
    → now < 2 ^ 64
    → is_sorted s.timers ≡ true
    → has_idle now s.cancelled_timers s.timers ≡ true
    → execute fuel now s ≡ none
unfolding execute
execute-idle fuel now s w sorted h =
    ground
      (arith, loop-idle fuel now (first_key s.timers) [] s.timers s.cancelled_timers w sorted h)
