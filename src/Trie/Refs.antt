-- ===== src/Trie/Refs.antt =====
-- The trie of src/pipe/trie.cpp against a count of references for each prefix.
use serverlink.Prelude.{
  ℕ, ◌+◌, ◌-◌, ◌≤◌, ◌<◌, ◌^◌, ◌≡◌, ◌⊎◌, refl, arith, ◌==◌, ==_iff, Bool, true, false, if◌then◌else◌,
  Option, none, some, [], ◌∷◌, Bytes, Option-cases,
}
use serverlink.Trie.Tables.{Trie, Slots, node, slots_len, at, put, subs, is_some, at-put}
use serverlink.Trie.Cuts.{valid, all_valid, valid_at}
use serverlink.Trie.{is_outside, or_new}

-- The child at a byte.
abbrev pub child_of : ℕ → ℕ → ℕ → Slots → Option Trie
child_of c m n s = if is_outside c m n then none else at s (c - m)

-- How often a prefix was subscribed to.
unfoldable pub refs : Bytes → Trie → ℕ
refs [] (node r m n l s) = r
refs (c ∷ cs) (node r m n l s) = elim (child_of c m n s) [ none ↦ 0 | some t ↦ refs cs t ]

-- The parts of a node that is well-formed.
pub valid_lem :
    (r m n l : ℕ) (s : Slots)
    → valid (node r m n l s) ≡ true
    → (r < 2 ^ 32)
      × (n ≡ slots_len s)
      × (l ≡ subs s)
      × ((n ≡ 0) ⊎ ((is_some (at s 0) ≡ true) × (is_some (at s (n - 1)) ≡ true)))
      × (all_valid s ≡ true)
unfolding valid
valid_lem r m n l s h = ground (arith, ==_iff n 0, ==_iff n (slots_len s), ==_iff l (subs s))

pub inside_lem : (c m n : ℕ) → is_outside c m n ≡ false → (c - m < n) × (m ≤ c) × (c < m + n)
inside_lem c m n h = ground arith

pub child_of-put :
    (c d m n : ℕ) (s : Slots) (t : Trie)
    → n ≡ slots_len s
    → is_outside c m n ≡ false
    → child_of d m n (put s (c - m) t) ≡ (if c == d then some t else child_of d m n s)
child_of-put c d m n s t h o =
    ground
      (arith, inside_lem c m n o, at-put s (c - m) (d - m) t, ==_iff c d, ==_iff (c - m) (d - m))

-- The reference count of a child's prefix, 0 without the child.
abbrev pub refs_at : Bytes → Option Trie → ℕ
refs_at cs none = 0
refs_at cs (some t) = refs cs t

pub refs-or_new : (cs : Bytes) (o : Option Trie) → refs cs (or_new o) ≡ refs_at cs o
unfolding refs
refs-or_new [] none = refl
refs-or_new (c ∷ cs) none = ground arith
refs-or_new cs (some t) = refl

pub refs-cons :
    (c : ℕ) (cs : Bytes) (r m n l : ℕ) (s : Slots)
    → refs (c ∷ cs) (node r m n l s) ≡ refs_at cs (child_of c m n s)
unfolding refs
refs-cons c cs r m n l s = ground (arith, Option-cases (child_of c m n s))

pub valid-or_new : (o : Option Trie) → valid_at o ≡ true → valid (or_new o) ≡ true
unfolding valid
valid-or_new none h = ground arith
valid-or_new (some t) h = ground arith

pub child_inside :
    (c m n : ℕ) (s : Slots) → is_outside c m n ≡ false → child_of c m n s ≡ at s (c - m)
child_inside c m n s h = ground arith

pub refs_at-if :
    (b : Bool) (cs : Bytes) (u : Trie) (o : Option Trie)
    → refs_at cs (if b then some u else o) ≡ (if b then refs cs u else refs_at cs o)
refs_at-if true cs u o = refl
refs_at-if false cs u o = refl

pub valid_of :
    (r m n l : ℕ) (s : Slots)
    → r < 2 ^ 32
    → n ≡ slots_len s
    → l ≡ subs s
    → (n ≡ 0) ⊎ ((is_some (at s 0) ≡ true) × (is_some (at s (n - 1)) ≡ true))
    → all_valid s ≡ true
    → valid (node r m n l s) ≡ true
unfolding valid
valid_of r m n l s hr hn hl e v =
    ground (arith, ==_iff n 0, ==_iff n (slots_len s), ==_iff l (subs s))
