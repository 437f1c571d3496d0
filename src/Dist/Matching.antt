-- ===== src/Dist/Matching.antt =====
-- Which pipes match after some were asked for (src/pipe/dist.cpp).
use serverlink.Prelude.{
  ℕ, zero, suc, ◌+◌, ◌-◌, ◌≤◌, ◌<◌, ◌≡◌, refl, ap, ◌∙◌, arith, ◌==◌, ==_iff, ltb, leb, false,
  if◌then◌else◌, List, [], ◌∷◌, length, Bool-cases, inl, inr,
}
use serverlink.Fq.{index, swap}
use serverlink.Fq.Bounds.{length-swap}
use serverlink.Dist.{Dist, match}
use serverlink.Dist.Bounds.{IsValid}
use serverlink.Dist.Slots.{
  among, among-swap_other, among-split, among-snoc, count, count-swap, get_or-swap, get_or-index,
}

among-cons : (x : ℕ) (xs : List ℕ) (i n q : ℕ) → among (x ∷ xs) (suc i) n q ≡ among xs i n q
among-cons x xs i zero q = refl
among-cons x xs i (suc n) q = ground (arith, among-cons x xs (i + 1) n q)

index_absent : (xs : List ℕ) (q : ℕ) → count xs q ≡ 0 → index xs q ≡ length xs
index_absent [] q h = refl
index_absent (x ∷ xs) q h = ground (arith, index_absent xs q)

-- A pipe that stands in the array at most once is among the first ones by its index.
pub among-index :
    (xs : List ℕ) (n q : ℕ)
    → n ≤ length xs
    → count xs q ≤ 1
    → among xs 0 n q ≡ (if ltb (index xs q) n then 1 else 0)
among-index xs zero q h u = ground arith
among-index [] (suc n) q h u = ground arith
among-index (x ∷ xs) (suc n) q h u =
    ground (arith, among-cons x xs 0 n q, among-index xs n q, index_absent xs q, ==_iff x q)

among-swap_below :
    (xs : List ℕ) (i j k n q : ℕ)
    → i < length xs
    → j < length xs
    → i < k
    → j < k
    → among (swap i j xs) k n q ≡ among xs k n q
among-swap_below xs i j k zero q hi hj a b = refl
among-swap_below xs i j k (suc n) q hi hj a b =
    ground (
      arith,
      ==_iff i k,
      ==_iff j k,
      get_or-swap i j k xs hi hj,
      among-swap_below xs i j (k + 1) n q,
    )

among_all : (xs : List ℕ) (q : ℕ) → among xs 0 (length xs) q ≡ count xs q
among_all [] q = refl
among_all (x ∷ xs) q = ground (arith, among-cons x xs 0 (length xs) q, among_all xs q)

-- An exchange among the first items leaves these the same.
among-swap_within :
    (xs : List ℕ) (i j n q : ℕ)
    → i < n
    → j < n
    → n ≤ length xs
    → among (swap i j xs) 0 n q ≡ among xs 0 n q
among-swap_within xs i j n q a b h =
    let k : ℕ = length xs - n in
    let all : n + k ≡ length xs = omega arith in
    ground (
      arith,
      all,
      among_all xs q,
      among_all (swap i j xs) q,
      ap (λ l. among xs 0 l q) all,
      ap (λ l. among (swap i j xs) 0 l q) (all ∙ refl),
      length-swap i j xs,
      ap (λ l. among (swap i j xs) 0 l q) (length-swap i j xs),
      among-split xs 0 n k q,
      among-split (swap i j xs) 0 n k q,
      among-swap_below xs i j n k q,
      count-swap i j q xs,
    )

-- What matching one more pipe changes.
pub match_lem :
    (p q : ℕ) (d : Dist)
    → IsValid d
    → d.more ≡ false
    → ((x : ℕ) → count d.pipes x ≤ 1)
    → let d' = match p d in
      (among d'.pipes 0 d'.matching q
        ≡ (if p == q then among d.pipes 0 d.active q else among d.pipes 0 d.matching q))
      × (among d'.pipes 0 d'.active q ≡ among d.pipes 0 d.active q)
      × (count d'.pipes q ≡ count d.pipes q)
      × (d'.active ≡ d.active)
      × (d'.more ≡ false)
unfolding match
match_lem p q d v h u =
    let i : ℕ = index d.pipes p in
    elim (Bool-cases (ltb i d.matching)) [
      | inl a ↦ ground (
        arith,
        a,
        ==_iff p q,
        among-index d.pipes d.matching p,
        among-index d.pipes d.active p,
        u p,
        λ (e : p ≡ q). ap (among d.pipes 0 d.matching) e,
        λ (e : p ≡ q). ap (among d.pipes 0 d.active) e,
      )
      | inr a ↦ elim (Bool-cases (leb d.eligible i)) [
        | inl b ↦ ground (
          arith,
          a,
          b,
          ==_iff p q,
          among-index d.pipes d.matching p,
          among-index d.pipes d.active p,
          u p,
          λ (e : p ≡ q). ap (among d.pipes 0 d.matching) e,
          λ (e : p ≡ q). ap (among d.pipes 0 d.active) e,
        )
        | inr b ↦
            let here = get_or-index d.pipes p in
            let taken = get_or-swap i d.matching d.matching d.pipes in
            ground (
              arith,
              a,
              b,
              ==_iff p q,
              here,
              taken,
              ==_iff d.matching d.matching,
              among-snoc (swap i d.matching d.pipes) 0 d.matching q,
              among-swap_other d.pipes i d.matching 0 d.matching q,
              among-swap_within d.pipes i d.matching d.active q,
              among-index d.pipes d.matching p,
              among-index d.pipes d.active p,
              u p,
              λ (e : p ≡ q). ap (among d.pipes 0 d.matching) e,
              λ (e : p ≡ q). ap (among d.pipes 0 d.active) e,
              count-swap i d.matching q d.pipes,
            )
      ]
    ]
