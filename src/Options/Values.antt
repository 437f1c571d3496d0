-- ===== src/Options/Values.antt =====
-- The bytes of an `int` and of a switch (src/core/options.cpp).
use serverlink.Prelude.{
  ℕ, zero, suc, ◌+◌, ◌-◌, ◌*◌, ◌/◌, ◌%◌, ◌^◌, ◌<◌, ◌≡◌, inl, inr, refl, ap, ◌∙◌, arith, ==_iff, ltb,
  Bool, true, ◌&&◌, some, [], ◌∷◌, Bytes, length, Bool-cases, bytes_eq,
}
use serverlink.Prelude.Int.{ℤ, pos, negsuc, negate}
use serverlink.Options.{
  is_int, word, to_int, int_of, from_int, int_bytes, give_int, bool_of, set_bool, bool_int,
}

abbrev pub is_bytes : Bytes → Bool
is_bytes [] = true
is_bytes (x ∷ xs) = ltb x 256 && is_bytes xs

from_int-negate : (n : ℕ) → 0 < n → from_int (negate n) ≡ 2 ^ 32 - n
unfolding from_int
from_int-negate zero h = absurd (omega arith)
from_int-negate (suc n) h = omega arith

from-to_int : (w : ℕ) → w < 2 ^ 32 → from_int (to_int w) ≡ w
unfolding from_int to_int
from-to_int w h = elim (Bool-cases (ltb w (2 ^ 31))) [
  | inl e ↦ rw e refl
  | inr e ↦ rw e (from_int-negate (2 ^ 32 - w) (omega arith) ∙ ground (arith, e))
]

digits : ℕ → Bytes
digits w = w % 256 ∷ w / 2 ^ 8 % 256 ∷ w / 2 ^ 16 % 256 ∷ w / 2 ^ 24 % 256 ∷ []

digits_lem :
    (a b c d : ℕ)
    → a < 256
    → b < 256
    → c < 256
    → d < 256
    → digits (a + b * 2 ^ 8 + c * 2 ^ 16 + d * 2 ^ 24) ≡ a ∷ b ∷ c ∷ d ∷ []
unfolding digits
digits_lem a b c d ha hb hc hd =
    let w : ℕ = a + b * 2 ^ 8 + c * 2 ^ 16 + d * 2 ^ 24 in
    let e0 : w % 256 ≡ a = omega arith in
    let e1 : w / 2 ^ 8 % 256 ≡ b = omega arith in
    let e2 : w / 2 ^ 16 % 256 ≡ c = omega arith in
    let e3 : w / 2 ^ 24 % 256 ≡ d = omega arith in rw (e0, e1, e2, e3) refl

pub int_bytes-int_of : (b : Bytes) → is_bytes b ≡ true → length b ≡ 4 → int_bytes (int_of b) ≡ b
unfolding int_bytes int_of word digits
int_bytes-int_of [] h l = ground arith
int_bytes-int_of (w ∷ []) h l = ground arith
int_bytes-int_of (w ∷ x ∷ []) h l = ground arith
int_bytes-int_of (w ∷ x ∷ y ∷ []) h l = ground arith
int_bytes-int_of (w ∷ x ∷ y ∷ z ∷ a ∷ r) h l = ground arith
int_bytes-int_of (w ∷ x ∷ y ∷ z ∷ []) h l =
    let hw : w < 256 = ground arith in
    let hx : x < 256 = ground arith in
    let hy : y < 256 = ground arith in
    let hz : z < 256 = ground arith in
    ap digits (from-to_int (w + x * 2 ^ 8 + y * 2 ^ 16 + z * 2 ^ 24) (omega arith))
    ∙ digits_lem w x y z hw hx hy hz

bool_of_lem : (z : ℤ) (v : Bool) → bool_of true z ≡ some v → bool_int v ≡ z
bool_of_lem (pos zero) v k = ground arith
bool_of_lem (pos (suc zero)) v k = ground arith
bool_of_lem (pos (suc (suc n))) v k = ground arith
bool_of_lem (negsuc n) v k = ground arith

pub set_bool_lem :
    (b : Bytes) (v : Bool)
    → set_bool true b ≡ some v
    → is_bytes b ≡ true
    → give_int (length b) (bool_int v) ≡ some b
unfolding set_bool
set_bool_lem b v k h = elim (Bool-cases (is_int b)) [
  | inl c ↦
      let four : length b ≡ 4 = (==_iff (length b) 4).0 c in
      let same : bool_int v ≡ int_of b = bool_of_lem (int_of b) v (ground (arith, c, k)) in
      rw (c, same) (ap some (int_bytes-int_of b h four))
  | inr c ↦ absurd (ground (arith, c, k))
]
