-- ===== src/Prelude/Sets.antt =====
-- Finite sets of numbers, each kept as a list in some order.
use Prim.Native.Nat.{ℕ}
use mathlib.Core.Path.{◌≡◌, refl}
use mathlib.Core.Logic.{◌≢◌}
use mathlib.Core.Bool.{Bool, true, false, not, ◌&&◌}
use mathlib.Core.List.{List, [], ◌∷◌}
use native.Mathlib.Omega.{arith}
use serverlink.Prelude.Tests.{◌==◌, if◌then◌else◌}

abbrev pub has : List ℕ → ℕ → Bool
has [] p = false
has (x ∷ xs) p = if x == p then true else has xs p

abbrev pub insert : List ℕ → ℕ → List ℕ
insert xs p = if has xs p then xs else p ∷ xs

abbrev pub erase : List ℕ → ℕ → List ℕ
erase [] p = []
erase (x ∷ xs) p = if x == p then xs else x ∷ erase xs p

abbrev pub is_unique : List ℕ → Bool
is_unique [] = true
is_unique (x ∷ xs) = not (has xs x) && is_unique xs

pub has-erase_other : (xs : List ℕ) (p q : ℕ) → p ≢ q → has (erase xs p) q ≡ has xs q
has-erase_other [] p q h = refl
has-erase_other (x ∷ xs) p q h = ground (arith, has-erase_other xs p q h)

pub has-erase : (xs : List ℕ) (p : ℕ) → is_unique xs ≡ true → has (erase xs p) p ≡ false
has-erase [] p u = refl
has-erase (x ∷ xs) p u = ground (arith, has-erase xs p)

pub has-erase-false : (xs : List ℕ) (p q : ℕ) → has xs q ≡ false → has (erase xs p) q ≡ false
has-erase-false [] p q h = refl
has-erase-false (x ∷ xs) p q h = ground (arith, has-erase-false xs p q)

pub is_unique-erase : (xs : List ℕ) (p : ℕ) → is_unique xs ≡ true → is_unique (erase xs p) ≡ true
is_unique-erase [] p u = refl
is_unique-erase (x ∷ xs) p u = ground (arith, is_unique-erase xs p, has-erase-false xs p x)
