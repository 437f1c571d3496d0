-- ===== src/Prelude/Int.antt =====
-- The signed integers that the program keeps in an `int`, as far as it computes with them.
use Prim.Native.Nat.{ℕ, zero, suc, ◌+◌, ◌-◌, ◌/◌}
use serverlink.Prelude.Tests.{leb, ltb, if◌then◌else◌}
use mathlib.Core.Bool.{Bool, false}

-- `negsuc n` is -(n + 1).
pub data ℤ : Type 0 where
  pos : ℕ → ℤ
  negsuc : ℕ → ℤ

abbrev pub is_pos : ℤ → Bool
is_pos (pos n) = ltb 0 n
is_pos (negsuc n) = false

-- The value of an integer that is not negative, and 0 for the others.
abbrev pub to_ℕ : ℤ → ℕ
to_ℕ (pos n) = n
to_ℕ (negsuc n) = 0

abbrev pub negate : ℕ → ℤ
negate zero = pos 0
negate (suc n) = negsuc n

infixl 65 ◌+ℤ◌
abbrev pub ◌+ℤ◌ : ℤ → ℤ → ℤ
pos a +ℤ pos b = pos (a + b)
pos a +ℤ negsuc b = if leb (suc b) a then pos (a - suc b) else negate (suc b - a)
negsuc a +ℤ pos b = if leb (suc a) b then pos (b - suc a) else negate (suc a - b)
negsuc a +ℤ negsuc b = negsuc (a + b + 1)

-- Division by 2 that rounds towards zero, as in C++.
abbrev pub half : ℤ → ℤ
half (pos n) = pos (n / 2)
half (negsuc n) = negate (suc n / 2)

-- `std::max(a, 0)`
abbrev pub max_zero : ℤ → ℤ
max_zero (pos n) = pos n
max_zero (negsuc n) = pos 0
