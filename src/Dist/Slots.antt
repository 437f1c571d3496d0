-- ===== src/Dist/Slots.antt =====
-- The array of src/core/array.hpp under the exchange of two items.
use serverlink.Prelude.{
  ℕ, zero, suc, ◌+◌, ◌≤◌, ◌<◌, ◌≡◌, refl, ap, arith, ◌==◌, ==_iff, if◌then◌else◌, List, [], ◌∷◌,
  length, length-set, set, get_or,
}
use serverlink.Fq.{index, swap}
use serverlink.Fq.Bounds.{length-swap}

-- How often a pipe stands among the `n` items from `i` on.
abbrev pub among : List ℕ → ℕ → ℕ → ℕ → ℕ
among xs i zero q = 0
among xs i (suc n) q = (if get_or xs i 0 == q then 1 else 0) + among xs (i + 1) n q

pub get_or-set :
    (xs : List ℕ) (i j v : ℕ)
    → i < length xs
    → get_or (set xs i v) j 0 ≡ (if i == j then v else get_or xs j 0)
get_or-set [] i j v h = ground arith
get_or-set (x ∷ xs) zero zero v h = refl
get_or-set (x ∷ xs) zero (suc j) v h = ground arith
get_or-set (x ∷ xs) (suc i) zero v h = ground arith
get_or-set (x ∷ xs) (suc i) (suc j) v h = ground (arith, get_or-set xs i j v)

pub get_or-swap :
    (i j k : ℕ) (xs : List ℕ)
    → i < length xs
    → j < length xs
    → get_or (swap i j xs) k 0
      ≡ (if j == k then get_or xs i 0 else if i == k then get_or xs j 0 else get_or xs k 0)
get_or-swap i j k xs hi hj = ground (
  arith,
  get_or-set (set xs i (get_or xs j 0)) j k (get_or xs i 0),
  get_or-set xs i k (get_or xs j 0),
  length-set xs i (get_or xs j 0),
)

-- An exchange elsewhere is not seen.
pub among-swap_other :
    (xs : List ℕ) (i j k n q : ℕ)
    → i < length xs
    → j < length xs
    → k + n ≤ i
    → k + n ≤ j
    → among (swap i j xs) k n q ≡ among xs k n q
among-swap_other xs i j k zero q hi hj a b = refl
among-swap_other xs i j k (suc n) q hi hj a b =
    ground (
      arith,
      ==_iff i k,
      ==_iff j k,
      get_or-swap i j k xs hi hj,
      among-swap_other xs i j (k + 1) n q,
    )

pub among-swap_before :
    (xs : List ℕ) (i j k n q : ℕ)
    → i < length xs
    → j < length xs
    → i < k
    → k + n ≤ j
    → among (swap i j xs) k n q ≡ among xs k n q
among-swap_before xs i j k zero q hi hj a b = refl
among-swap_before xs i j k (suc n) q hi hj a b = ground (
  arith,
  ==_iff i k,
  ==_iff j k,
  get_or-swap i j k xs hi hj,
  among-swap_before xs i j (k + 1) n q,
)

pub among-snoc :
    (xs : List ℕ) (i n q : ℕ)
    → among xs i (n + 1) q ≡ among xs i n q + (if get_or xs (i + n) 0 == q then 1 else 0)
among-snoc xs i zero q = ground arith
among-snoc xs i (suc n) q = ground (arith, among-snoc xs (i + 1) n q)

pub among-shift :
    (xs : List ℕ) (i n q : ℕ)
    → i + n < length xs
    → among (swap i (i + n) xs) i n q + (if get_or xs i 0 == q then 1 else 0) ≡ among xs i (n + 1) q
among-shift xs i zero q h = ground arith
among-shift xs i (suc n) q h = ground (
  arith,
  ==_iff i (i + suc n),
  among-snoc xs (i + 1) n q,
  get_or-swap i (i + suc n) i xs,
  among-swap_before xs i (i + suc n) (i + 1) n q,
)

-- How often a pipe stands in the array.
abbrev pub count : List ℕ → ℕ → ℕ
count [] q = 0
count (x ∷ xs) q = (if x == q then 1 else 0) + count xs q

count-set :
    (xs : List ℕ) (i v q : ℕ)
    → i < length xs
    → count (set xs i v) q + (if get_or xs i 0 == q then 1 else 0)
      ≡ count xs q + (if v == q then 1 else 0)
count-set [] i v q h = ground arith
count-set (x ∷ xs) zero v q h = ground arith
count-set (x ∷ xs) (suc i) v q h = ground (arith, count-set xs i v q)

pub count-swap :
    (i j q : ℕ) (xs : List ℕ) → i < length xs → j < length xs → count (swap i j xs) q ≡ count xs q
count-swap i j q xs hi hj = ground (
  arith,
  ==_iff i j,
  count-set (set xs i (get_or xs j 0)) j (get_or xs i 0) q,
  count-set xs i (get_or xs j 0) q,
  length-set xs i (get_or xs j 0),
  get_or-set xs i j (get_or xs j 0),
)

count-get_or : (xs : List ℕ) (i : ℕ) → i < length xs → 1 ≤ count xs (get_or xs i 0)
count-get_or [] i h = ground arith
count-get_or (x ∷ xs) zero h = ground arith
count-get_or (x ∷ xs) (suc i) h = ground (arith, count-get_or xs i)

-- The item that stands once in the array is where its index says.
pub index-get_or :
    (xs : List ℕ) (i : ℕ)
    → i < length xs
    → count xs (get_or xs i 0) ≤ 1
    → index xs (get_or xs i 0) ≡ i
index-get_or [] i h u = ground arith
index-get_or (x ∷ xs) zero h u = ground arith
index-get_or (x ∷ xs) (suc i) h u =
    ground (arith, ==_iff x (get_or xs i 0), count-get_or xs i, index-get_or xs i)

pub get_or-index : (xs : List ℕ) (p : ℕ) → index xs p < length xs → get_or xs (index xs p) 0 ≡ p
get_or-index [] p h = ground arith
get_or-index (x ∷ xs) p h = ground (arith, ==_iff x p, get_or-index xs p)

-- A pipe that stands once in the array is, after an exchange, where it was put.
pub index-swap :
    (xs : List ℕ) (p j : ℕ)
    → index xs p < length xs
    → j < length xs
    → count xs p ≤ 1
    → index (swap (index xs p) j xs) p ≡ j
index-swap xs p j h hj u = ground (
  arith,
  get_or-index xs p h,
  ==_iff j j,
  get_or-swap (index xs p) j j xs h hj,
  count-swap (index xs p) j p xs h hj,
  length-swap (index xs p) j xs,
  index-get_or (swap (index xs p) j xs) j,
)

pub among-split :
    (xs : List ℕ) (k a b q : ℕ) → among xs k (a + b) q ≡ among xs k a q + among xs (k + a) b q
among-split xs k zero b q = ground arith
among-split xs k (suc a) b q =
    let joined : k + 1 + a ≡ k + suc a = omega arith in
    let more : suc (a + b) ≡ suc a + b = omega arith in
    ground (
      arith,
      ap (λ j. among xs j b q) joined,
      ap (λ c. among xs k c q) more,
      among-split xs (k + 1) a b q,
    )
