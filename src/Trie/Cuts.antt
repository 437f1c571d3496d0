-- ===== src/Trie/Cuts.antt =====
-- Tables that lose the empty places at their ends (src/pipe/trie.cpp), and well-formed nodes.
use serverlink.Prelude.{
  ℕ, zero, suc, ◌+◌, ◌-◌, ◌≤◌, ◌<◌, ◌^◌, ◌≡◌, refl, arith, ◌==◌, ltb, Bool, true, false, not, ◌&&◌,
  ◌||◌, if◌then◌else◌, Option, none, some,
}
use serverlink.Trie.Tables.{
  Trie, Slots, node, end, gap, sub, slots_len, at, put, clear, gaps, pad, skip, keep, leading, used,
  subs, is_some, is_redundant,
}

pub at-skip : (n j : ℕ) (s : Slots) → at (skip n s) j ≡ at s (n + j)
at-skip zero j s = ground arith
at-skip (suc n) j end = ground arith
at-skip (suc n) j (gap s) = ground (arith, at-skip n j s)
at-skip (suc n) j (sub t s) = ground (arith, at-skip n j s)

pub skip_len : (n : ℕ) (s : Slots) → slots_len (skip n s) ≡ slots_len s - n
skip_len zero s = ground arith
skip_len (suc n) end = ground arith
skip_len (suc n) (gap s) = ground (arith, skip_len n s)
skip_len (suc n) (sub t s) = ground (arith, skip_len n s)

pub leading_lem :
    (s : Slots)
    → (leading s ≤ slots_len s)
      × (subs (skip (leading s) s) ≡ subs s)
      × (is_some (at s (leading s)) ≡ ltb (leading s) (slots_len s))
      × (1 ≤ subs s → leading s < slots_len s)
leading_lem end = ground arith
leading_lem (gap s) = ground (arith, leading_lem s)
leading_lem (sub t s) = ground arith

pub at-leading : (s : Slots) (j : ℕ) → j < leading s → at s j ≡ none
at-leading end j h = ground arith
at-leading (gap s) zero h = refl
at-leading (gap s) (suc j) h = ground (arith, at-leading s j)
at-leading (sub t s) j h = ground arith

pub at-keep : (n j : ℕ) (s : Slots) → at (keep n s) j ≡ (if ltb j n then at s j else none)
at-keep zero j s = ground arith
at-keep (suc n) j end = ground arith
at-keep (suc n) zero (gap s) = ground arith
at-keep (suc n) (suc j) (gap s) = ground (arith, at-keep n j s)
at-keep (suc n) zero (sub t s) = ground arith
at-keep (suc n) (suc j) (sub t s) = ground (arith, at-keep n j s)

pub keep_len : (n : ℕ) (s : Slots) → n ≤ slots_len s → slots_len (keep n s) ≡ n
keep_len zero s h = refl
keep_len (suc n) end h = ground arith
keep_len (suc n) (gap s) h = ground (arith, keep_len n s)
keep_len (suc n) (sub t s) h = ground (arith, keep_len n s)

keep_used : (s : Slots) → used s ≡ 0 → subs s ≡ 0
keep_used end h = refl
keep_used (gap s) h = ground (arith, keep_used s)
keep_used (sub t s) h = ground arith

at_gap : (s : Slots) (i : ℕ) → at (gap s) i ≡ (if i == 0 then none else at s (i - 1))
at_gap s zero = refl
at_gap s (suc i) = ground arith

at_sub : (t : Trie) (s : Slots) (i : ℕ) → at (sub t s) i ≡ (if i == 0 then some t else at s (i - 1))
at_sub t s zero = refl
at_sub t s (suc i) = ground arith

pub used_lem :
    (s : Slots)
    → (used s ≤ slots_len s)
      × (subs (keep (used s) s) ≡ subs s)
      × (is_some (at s (used s - 1)) ≡ ltb 0 (used s))
used_lem end = ground arith
used_lem (gap s) = ground (arith, used_lem s, keep_used s, at_gap s (used s))
used_lem (sub t s) = ground (arith, used_lem s, keep_used s, at_sub t s (used s))

pub at-used : (s : Slots) (j : ℕ) → used s ≤ j → at s j ≡ none
at-used end j h = refl
at-used (gap s) zero h = refl
at-used (gap s) (suc j) h = ground (arith, at-used s j)
at-used (sub t s) zero h = ground arith
at-used (sub t s) (suc j) h = ground (arith, at-used s j)

-- A node's table has its size and its number of children, and the first and the last place are filled; no
-- child is redundant.
unfoldable mutual
  pub valid : Trie → Bool
  valid (node r m n l s) =
      ltb r (2 ^ 32)
      && (n == slots_len s)
      && (l == subs s)
      && ((n == 0) || (is_some (at s 0) && is_some (at s (n - 1))))
      && all_valid s

  pub all_valid : Slots → Bool
  all_valid end = true
  all_valid (gap s) = all_valid s
  all_valid (sub t s) = valid t && not (is_redundant t) && all_valid s

abbrev pub valid_at : Option Trie → Bool
valid_at none = true
valid_at (some t) = valid t && not (is_redundant t)

pub all_valid-at : (s : Slots) (i : ℕ) → all_valid s ≡ true → valid_at (at s i) ≡ true
unfolding valid all_valid
all_valid-at end i h = refl
all_valid-at (gap s) zero h = refl
all_valid-at (gap s) (suc i) h = all_valid-at s i h
all_valid-at (sub t s) zero h = ground arith
all_valid-at (sub t s) (suc i) h = ground (arith, all_valid-at s i)

pub all_valid-put :
    (s : Slots) (i : ℕ) (u : Trie)
    → all_valid s ≡ true
    → valid u ≡ true
    → is_redundant u ≡ false
    → all_valid (put s i u) ≡ true
unfolding valid all_valid
all_valid-put end i u h v k = refl
all_valid-put (gap s) zero u h v k = ground arith
all_valid-put (gap s) (suc i) u h v k = all_valid-put s i u h v k
all_valid-put (sub t s) zero u h v k = ground arith
all_valid-put (sub t s) (suc i) u h v k = ground (arith, all_valid-put s i u)

pub all_valid-clear : (s : Slots) (i : ℕ) → all_valid s ≡ true → all_valid (clear s i) ≡ true
unfolding valid all_valid
all_valid-clear end i h = refl
all_valid-clear (gap s) zero h = h
all_valid-clear (gap s) (suc i) h = all_valid-clear s i h
all_valid-clear (sub t s) zero h = ground arith
all_valid-clear (sub t s) (suc i) h = ground (arith, all_valid-clear s i)

pub all_valid-gaps : (n : ℕ) (s : Slots) → all_valid s ≡ true → all_valid (gaps n s) ≡ true
unfolding valid all_valid
all_valid-gaps zero s h = h
all_valid-gaps (suc n) s h = all_valid-gaps n s h

pub all_valid-pad : (s : Slots) (n : ℕ) → all_valid s ≡ true → all_valid (pad s n) ≡ true
unfolding valid all_valid
all_valid-pad end n h = all_valid-gaps n end h
all_valid-pad (gap s) n h = all_valid-pad s n h
all_valid-pad (sub t s) n h = ground (arith, all_valid-pad s n)

pub all_valid-skip : (n : ℕ) (s : Slots) → all_valid s ≡ true → all_valid (skip n s) ≡ true
unfolding valid all_valid
all_valid-skip zero s h = h
all_valid-skip (suc n) end h = refl
all_valid-skip (suc n) (gap s) h = all_valid-skip n s h
all_valid-skip (suc n) (sub t s) h = ground (arith, all_valid-skip n s)

pub all_valid-keep : (n : ℕ) (s : Slots) → all_valid s ≡ true → all_valid (keep n s) ≡ true
unfolding valid all_valid
all_valid-keep zero s h = refl
all_valid-keep (suc n) end h = refl
all_valid-keep (suc n) (gap s) h = all_valid-keep n s h
all_valid-keep (suc n) (sub t s) h = ground (arith, all_valid-keep n s)
