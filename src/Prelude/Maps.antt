-- ===== src/Prelude/Maps.antt =====
-- An equality test as an interface, byte strings, and dictionaries as association lists. A
-- dictionary keeps one entry for each key; where the code iterates over an unordered map, the order
-- of the list stands for the order that the map happens to have.
use Prim.Native.Nat.{ℕ, ◌+◌}
use serverlink.Prelude.Tests.{◌==◌ as nat_beq, ==_iff, if◌then◌else◌}
use serverlink.Prelude.Lists.{length}
use mathlib.Core.Path.{◌≡◌, refl}
use mathlib.Core.Logic.{◌↔◌}
use mathlib.Core.Bool.{Bool, true, false}
use mathlib.Core.List.{List, [], ◌∷◌}
use mathlib.Core.Option.{Option, none, some}
use native.Mathlib.Omega.{arith}

pub record Eq {ℓ} (A : Type ℓ) : Type ℓ where
  pub beq : A → A → Bool
  pub beq_iff : (a b : A) → (beq a b ≡ true) ↔ (a ≡ b)

instance abbrev pub nat_eq : Eq ℕ
nat_eq = record { beq = nat_beq; beq_iff = ==_iff }

abbrev pub Bytes : Type 0
Bytes = List ℕ

abbrev pub bytes_beq : Bytes → Bytes → Bool
bytes_beq [] [] = true
bytes_beq [] (y ∷ ys) = false
bytes_beq (x ∷ xs) [] = false
bytes_beq (x ∷ xs) (y ∷ ys) = if nat_beq x y then bytes_beq xs ys else false

bytes_beq_sound : (xs ys : Bytes) → bytes_beq xs ys ≡ true → xs ≡ ys
bytes_beq_sound [] [] h = refl
bytes_beq_sound [] (y ∷ ys) h = cc
bytes_beq_sound (x ∷ xs) [] h = cc
bytes_beq_sound (x ∷ xs) (y ∷ ys) h = ground (arith, bytes_beq_sound xs ys)

pub bytes_beq_refl : (xs : Bytes) → bytes_beq xs xs ≡ true
bytes_beq_refl [] = refl
bytes_beq_refl (x ∷ xs) = ground (arith, bytes_beq_refl xs)

pub bytes_beq_iff : (xs ys : Bytes) → (bytes_beq xs ys ≡ true) ↔ (xs ≡ ys)
bytes_beq_iff xs ys = (bytes_beq_sound xs ys, λ e. rw e (bytes_beq_refl ys))

instance abbrev pub bytes_eq : Eq Bytes
bytes_eq = record { beq = bytes_beq; beq_iff = bytes_beq_iff }

module _ {ℓ} {K : Type ℓ} ⦃e : Eq K⦄ where
  pub beq_refl : (k : K) → e.beq k k ≡ true
  beq_refl k = (e.beq_iff k k).1 refl

  -- The first element that passes the test.
  unfoldable pub contains : List K → K → Bool
  contains [] k = false
  contains (x ∷ xs) k = if e.beq x k then true else contains xs k

  -- `erase` of the first element that is equal.
  unfoldable pub remove_first : List K → K → List K
  remove_first [] k = []
  remove_first (x ∷ xs) k = if e.beq x k then xs else x ∷ remove_first xs k

module _ {ℓ κ} {K : Type ℓ} {V : Type κ} ⦃e : Eq K⦄ where
  unfoldable pub find : K → List (K × V) → Option V
  find k [] = none
  find k ((j, v) ∷ m) = if e.beq j k then some v else find k m

  unfoldable pub insert : K → V → List (K × V) → List (K × V)
  insert k v [] = (k, v) ∷ []
  insert k v ((j, w) ∷ m) = if e.beq j k then (k, v) ∷ m else (j, w) ∷ insert k v m

  unfoldable pub erase : K → List (K × V) → List (K × V)
  erase k [] = []
  erase k ((j, w) ∷ m) = if e.beq j k then m else (j, w) ∷ erase k m

  -- No key stands twice.
  unfoldable pub IsMap : List (K × V) → Type κ
  IsMap [] = Unit
  IsMap ((j, w) ∷ m) = (find j m ≡ none) × IsMap m

  pub find-insert :
      (k j : K) (v : V) (m : List (K × V))
      → find j (insert k v m) ≡ (if e.beq k j then some v else find j m)
  unfolding find insert
  find-insert k j v [] = refl
  find-insert k j v ((i, w) ∷ m) =
      ground (arith, e.beq_iff k j, e.beq_iff i k, e.beq_iff i j, find-insert k j v m)

  pub find-erase :
      (k j : K) (m : List (K × V))
      → IsMap m
      → find j (erase k m) ≡ (if e.beq k j then none else find j m)
  unfolding find erase IsMap
  find-erase k j [] h = ground arith
  find-erase k j ((i, w) ∷ m) h =
      ground (arith, e.beq_iff k j, e.beq_iff i k, e.beq_iff i j, find-erase k j m h.1)

  pub insert-IsMap : (k : K) (v : V) (m : List (K × V)) → IsMap m → IsMap (insert k v m)
  unfolding insert IsMap find
  insert-IsMap k v [] h = (refl, tt)
  insert-IsMap k v ((i, w) ∷ m) h =
      ground (arith, e.beq_iff i k, e.beq_iff k i, insert-IsMap k v m h.1, find-insert k i v m)

  pub erase-IsMap : (k : K) (m : List (K × V)) → IsMap m → IsMap (erase k m)
  unfolding erase IsMap
  erase-IsMap k [] h = tt
  erase-IsMap k ((i, w) ∷ m) h =
      ground (arith, erase-IsMap k m h.1, find-erase k i m h.1, e.beq_iff k i, e.beq_iff i k)

  pub length-insert :
      (k : K) (v : V) (m : List (K × V)) → find k m ≡ none → length (insert k v m) ≡ length m + 1
  unfolding insert find
  length-insert k v [] h = omega arith
  length-insert k v ((i, w) ∷ m) h = ground (arith, length-insert k v m)

  pub length-erase :
      (k : K) (v : V) (m : List (K × V)) → find k m ≡ some v → length (erase k m) + 1 ≡ length m
  unfolding erase find
  length-erase k v [] h = cc
  length-erase k v ((i, w) ∷ m) h = ground (arith, length-erase k v m)
