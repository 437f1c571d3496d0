-- ===== src/Trie/Tables.antt =====
-- The nodes of src/pipe/trie.cpp and the tables of their children. A table of one child is kept as the
-- child itself in the source.
use serverlink.Prelude.{
  ℕ, zero, suc, ◌+◌, ◌-◌, ◌≤◌, ◌<◌, ◌≡◌, refl, arith, ◌==◌, ltb, Bool, true, false, ◌&&◌,
  if◌then◌else◌, Option, none, some,
}

-- The count of references, the smallest byte, the size of the table, the number of children, the table.
mutual
  pub data Trie : Type 0 where
    node : ℕ → ℕ → ℕ → ℕ → Slots → Trie

  pub data Slots : Type 0 where
    end : Slots
    gap : Slots → Slots
    sub : Trie → Slots → Slots

abbrev pub slots_len : Slots → ℕ
slots_len end = 0
slots_len (gap s) = suc (slots_len s)
slots_len (sub t s) = suc (slots_len s)

abbrev pub at : Slots → ℕ → Option Trie
at end i = none
at (gap s) zero = none
at (gap s) (suc i) = at s i
at (sub t s) zero = some t
at (sub t s) (suc i) = at s i

abbrev pub put : Slots → ℕ → Trie → Slots
put end i u = end
put (gap s) zero u = sub u s
put (gap s) (suc i) u = gap (put s i u)
put (sub t s) zero u = sub u s
put (sub t s) (suc i) u = sub t (put s i u)

abbrev pub clear : Slots → ℕ → Slots
clear end i = end
clear (gap s) zero = gap s
clear (gap s) (suc i) = gap (clear s i)
clear (sub t s) zero = gap s
clear (sub t s) (suc i) = sub t (clear s i)

abbrev pub gaps : ℕ → Slots → Slots
gaps zero s = s
gaps (suc n) s = gap (gaps n s)

abbrev pub pad : Slots → ℕ → Slots
pad end n = gaps n end
pad (gap s) n = gap (pad s n)
pad (sub t s) n = sub t (pad s n)

abbrev pub skip : ℕ → Slots → Slots
skip zero s = s
skip (suc n) end = end
skip (suc n) (gap s) = skip n s
skip (suc n) (sub t s) = skip n s

abbrev pub keep : ℕ → Slots → Slots
keep zero s = end
keep (suc n) end = end
keep (suc n) (gap s) = gap (keep n s)
keep (suc n) (sub t s) = sub t (keep n s)

-- The empty places at the front, and the size without those at the end.
abbrev pub leading : Slots → ℕ
leading end = 0
leading (gap s) = suc (leading s)
leading (sub t s) = 0

abbrev pub used : Slots → ℕ
used end = 0
used (gap s) = if used s == 0 then 0 else suc (used s)
used (sub t s) = suc (used s)

-- The number of children.
abbrev pub subs : Slots → ℕ
subs end = 0
subs (gap s) = subs s
subs (sub t s) = suc (subs s)

abbrev pub is_some : Option Trie → Bool
is_some none = false
is_some (some t) = true

abbrev pub is_redundant : Trie → Bool
is_redundant (node r m n l s) = (r == 0) && (l == 0)

pub at-put :
    (s : Slots) (i j : ℕ) (u : Trie)
    → i < slots_len s
    → at (put s i u) j ≡ (if i == j then some u else at s j)
at-put end i j u h = ground arith
at-put (gap s) zero zero u h = refl
at-put (gap s) zero (suc j) u h = ground arith
at-put (gap s) (suc i) zero u h = ground arith
at-put (gap s) (suc i) (suc j) u h = ground (arith, at-put s i j u)
at-put (sub t s) zero zero u h = refl
at-put (sub t s) zero (suc j) u h = ground arith
at-put (sub t s) (suc i) zero u h = ground arith
at-put (sub t s) (suc i) (suc j) u h = ground (arith, at-put s i j u)

pub put_lem :
    (s : Slots) (i : ℕ) (u : Trie)
    → i < slots_len s
    → (slots_len (put s i u) ≡ slots_len s)
      × (subs (put s i u) ≡ subs s + (if is_some (at s i) then 0 else 1))
put_lem end i u h = ground arith
put_lem (gap s) zero u h = ground arith
put_lem (gap s) (suc i) u h = ground (arith, put_lem s i u)
put_lem (sub t s) zero u h = ground arith
put_lem (sub t s) (suc i) u h = ground (arith, put_lem s i u)

pub at-clear : (s : Slots) (i j : ℕ) → at (clear s i) j ≡ (if i == j then none else at s j)
at-clear end i j = ground arith
at-clear (gap s) zero zero = refl
at-clear (gap s) zero (suc j) = ground arith
at-clear (gap s) (suc i) zero = ground arith
at-clear (gap s) (suc i) (suc j) = ground (arith, at-clear s i j)
at-clear (sub t s) zero zero = refl
at-clear (sub t s) zero (suc j) = ground arith
at-clear (sub t s) (suc i) zero = ground arith
at-clear (sub t s) (suc i) (suc j) = ground (arith, at-clear s i j)

pub clear_lem :
    (s : Slots) (i : ℕ)
    → (slots_len (clear s i) ≡ slots_len s)
      × (subs (clear s i) + (if is_some (at s i) then 1 else 0) ≡ subs s)
clear_lem end i = ground arith
clear_lem (gap s) zero = ground arith
clear_lem (gap s) (suc i) = ground (arith, clear_lem s i)
clear_lem (sub t s) zero = ground arith
clear_lem (sub t s) (suc i) = ground (arith, clear_lem s i)

pub at-gaps : (n j : ℕ) (s : Slots) → at (gaps n s) j ≡ (if ltb j n then none else at s (j - n))
at-gaps zero j s = ground arith
at-gaps (suc n) zero s = ground arith
at-gaps (suc n) (suc j) s = ground (arith, at-gaps n j s)

pub gaps_lem :
    (n : ℕ) (s : Slots) → (slots_len (gaps n s) ≡ n + slots_len s) × (subs (gaps n s) ≡ subs s)
gaps_lem zero s = ground arith
gaps_lem (suc n) s = ground (arith, gaps_lem n s)

pub at-pad : (s : Slots) (n j : ℕ) → at (pad s n) j ≡ at s j
at-pad end n j = ground (arith, at-gaps n j end)
at-pad (gap s) n zero = refl
at-pad (gap s) n (suc j) = at-pad s n j
at-pad (sub t s) n zero = refl
at-pad (sub t s) n (suc j) = at-pad s n j

pub pad_lem :
    (s : Slots) (n : ℕ) → (slots_len (pad s n) ≡ slots_len s + n) × (subs (pad s n) ≡ subs s)
pad_lem end n = ground (arith, gaps_lem n end)
pad_lem (gap s) n = ground (arith, pad_lem s n)
pad_lem (sub t s) n = ground (arith, pad_lem s n)

-- A place that is filled is in the table, and is a child.
pub at_lem : (s : Slots) (i : ℕ) → is_some (at s i) ≡ true → (i < slots_len s) × (1 ≤ subs s)
at_lem end i h = ground arith
at_lem (gap s) zero h = ground arith
at_lem (gap s) (suc i) h = ground (arith, at_lem s i)
at_lem (sub t s) zero h = ground arith
at_lem (sub t s) (suc i) h = ground (arith, at_lem s i)

pub subs_le : (s : Slots) → subs s ≤ slots_len s
subs_le end = ground arith
subs_le (gap s) = ground (arith, subs_le s)
subs_le (sub t s) = ground (arith, subs_le s)
