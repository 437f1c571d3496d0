-- ===== src/Timers/Order.antt =====
-- The order of the timers in their map (src/util/timers.cpp).
use serverlink.Prelude.{ℕ, ◌≤◌, ◌≡◌, refl, arith, Bool, true, ◌&&◌, leb, List, [], ◌∷◌}
use serverlink.Timers.{Timer, insert_timer, erase_timer}

-- No timer of the list comes before a time.
abbrev pub from : ℕ → List Timer → Bool
from now [] = true
from now (t ∷ ts) = leb now t.when && from now ts

abbrev pub is_sorted : List Timer → Bool
is_sorted [] = true
is_sorted (t ∷ ts) = from t.when ts && is_sorted ts

pub from-insert :
    (now : ℕ) (ts : List Timer) (t : Timer)
    → from now (insert_timer ts t) ≡ (leb now t.when && from now ts)
from-insert now [] t = ground arith
from-insert now (x ∷ xs) t = ground (arith, from-insert now xs t)

pub from_le : (a b : ℕ) (ts : List Timer) → a ≤ b → from b ts ≡ true → from a ts ≡ true
from_le a b [] h eq = refl
from_le a b (x ∷ xs) h eq = ground (arith, from_le a b xs h)

pub is_sorted-insert :
    (ts : List Timer) (t : Timer) → is_sorted ts ≡ true → is_sorted (insert_timer ts t) ≡ true
is_sorted-insert [] t s = refl
is_sorted-insert (x ∷ xs) t s =
    ground (arith, is_sorted-insert xs t, from-insert x.when xs t, from_le t.when x.when xs)

from-erase :
    (now : ℕ) (ts : List Timer) (i : ℕ) → from now ts ≡ true → from now (erase_timer ts i) ≡ true
from-erase now [] i h = refl
from-erase now (x ∷ xs) i h = ground (arith, from-erase now xs i)

is_sorted-erase :
    (ts : List Timer) (i : ℕ) → is_sorted ts ≡ true → is_sorted (erase_timer ts i) ≡ true
is_sorted-erase [] i s = refl
is_sorted-erase (x ∷ xs) i s = ground (arith, is_sorted-erase xs i, from-erase x.when xs i)
