-- ===== src/Trie/Shrink.antt =====
-- The table of a node of src/pipe/trie.cpp that loses a child.
use serverlink.Prelude.{
  ℕ, zero, suc, ◌+◌, ◌-◌, ◌≤◌, ◌<◌, ◌^◌, ◌≡◌, ◌⊎◌, inl, inr, refl, ◌∙◌, arith, ◌==◌, ==_iff, ltb,
  Bool, true, false, if◌then◌else◌, none, some, Bool-cases, Option-cases,
}
use serverlink.Trie.Tables.{
  Trie, Slots, node, end, gap, sub, slots_len, at, clear, skip, keep, leading, used, subs, is_some,
  at-clear, clear_lem, at_lem, subs_le,
}
use serverlink.Trie.Cuts.{
  at-skip, skip_len, leading_lem, at-leading, at-keep, keep_len, used_lem, at-used, valid,
  all_valid, all_valid-at, all_valid-clear, all_valid-skip, all_valid-keep,
}
use serverlink.Trie.{Outcome, done, is_outside, shrink, remove_child}
use serverlink.Trie.Refs.{child_of, valid_lem, inside_lem, valid_of}

-- The table of a node without the child at a byte: what it holds, and that it is well-formed.
abbrev pub Removed : ℕ → ℕ → ℕ → ℕ → ℕ → Slots → Bool → Outcome → Type 0
Removed c r m n l s b x =
    (m' : ℕ) × (n' : ℕ) × (l' : ℕ) × (s' : Slots) × (x ≡ done b (node r m' n' l' s'))
    × (valid (node r m' n' l' s') ≡ true)
    × ((d : ℕ) → child_of d m' n' s' ≡ (if c == d then none else child_of d m n s))

-- Two places that are filled are two children.
two_subs :
    (s : Slots) (i j : ℕ) → i < j → is_some (at s i) ≡ true → is_some (at s j) ≡ true → 2 ≤ subs s
two_subs end i j h a b = ground arith
two_subs (gap s) zero zero h a b = ground arith
two_subs (gap s) zero (suc j) h a b = ground arith
two_subs (gap s) (suc i) zero h a b = ground arith
two_subs (gap s) (suc i) (suc j) h a b = ground (arith, two_subs s i j)
two_subs (sub t s) zero zero h a b = ground arith
two_subs (sub t s) zero (suc j) h a b = ground (arith, at_lem s j)
two_subs (sub t s) (suc i) zero h a b = ground arith
two_subs (sub t s) (suc i) (suc j) h a b = ground (arith, two_subs s i j)

-- With one child, every other place is empty.
only_child :
    (s : Slots) (i j : ℕ)
    → subs s ≡ 1
    → is_some (at s i) ≡ true
    → at s j ≡ (if i == j then at s i else none)
only_child s i j h a =
    ground (arith, two_subs s i j, two_subs s j i, ==_iff i j, Option-cases (at s j))

child_of-clear :
    (c d m n : ℕ) (s : Slots)
    → is_outside c m n ≡ false
    → child_of d m n (clear s (c - m)) ≡ (if c == d then none else child_of d m n s)
child_of-clear c d m n s o =
    ground
      (arith, inside_lem c m n o, at-clear s (c - m) (d - m), ==_iff c d, ==_iff (c - m) (d - m))

child_of-skip :
    (d m n : ℕ) (s : Slots)
    → leading s ≤ n
    → child_of d (m + leading s) (n - leading s) (skip (leading s) s) ≡ child_of d m n s
child_of-skip d m n s h =
    let k : ℕ = leading s in ground (arith, at-skip k (d - (m + k)) s, at-leading s (d - m))

child_of-keep :
    (d m n : ℕ) (s : Slots)
    → used s ≤ n
    → child_of d m (used s) (keep (used s) s) ≡ child_of d m n s
child_of-keep d m n s h = ground (arith, at-keep (used s) (d - m) s, at-used s (d - m))

child_of-first :
    (d m n : ℕ) (s : Slots) (t : Trie)
    → subs s ≡ 1
    → at s 0 ≡ some t
    → 1 ≤ n
    → child_of d m 1 (sub t end) ≡ child_of d m n s
child_of-first d m n s t h a k = ground (arith, only_child s 0 (d - m), ==_iff 0 (d - m))

child_of-last :
    (d m n : ℕ) (s : Slots) (t : Trie)
    → subs s ≡ 1
    → at s (n - 1) ≡ some t
    → 1 ≤ n
    → child_of d (m + n - 1) 1 (sub t end) ≡ child_of d m n s
child_of-last d m n s t h a k =
    ground (arith, only_child s (n - 1) (d - m), ==_iff (n - 1) (d - m), ==_iff d (m + n - 1))

valid_end : all_valid end ≡ true
unfolding all_valid
valid_end = refl

valid_sub :
    (s : Slots) (i : ℕ) (t : Trie)
    → all_valid s ≡ true
    → at s i ≡ some t
    → all_valid (sub t end) ≡ true
unfolding all_valid
valid_sub s i t v a = ground (arith, all_valid-at s i v)

-- The parts of the table after a place was cleared.
cleared :
    (c m n : ℕ) (s : Slots) (t : Trie)
    → n ≡ slots_len s
    → all_valid s ≡ true
    → at s (c - m) ≡ some t
    → (n ≡ slots_len (clear s (c - m)))
      × (subs s ≡ subs (clear s (c - m)) + 1)
      × (all_valid (clear s (c - m)) ≡ true)
cleared c m n s t h v a = ground (arith, clear_lem s (c - m), all_valid-clear s (c - m) v)

shrink_last :
    (b : Bool) (c r m n l : ℕ) (s s' : Slots)
    → r < 2 ^ 32
    → l ≡ 1
    → 1 ≤ n
    → c ≡ m
    → all_valid s' ≡ true
    → subs s' ≡ 1
    → is_some (at s' (n - 1)) ≡ true
    → ((d : ℕ) → child_of d m n s' ≡ (if c == d then none else child_of d m n s))
    → Removed c r m n l s b (shrink b r m n l s' c)
shrink_last b c r m n l s s' hr hl hn hc v one e f = elim (Option-cases (at s' (n - 1))) [
  | inl bad ↦ absurd (ground arith)
  | inr (t, eq) ↦ (
    m + n - 1,
    1,
    l,
    sub t end,
    ground (arith, ==_iff c m, ==_iff l 1),
    valid_of r (m + n - 1) 1 l (sub t end) hr refl hl (inr (refl, refl))
        (valid_sub s' (n - 1) t v eq),
    (λ d. child_of-last d m n s' t one eq hn ∙ f d),
  )
]

shrink_first :
    (b : Bool) (c r m n l : ℕ) (s s' : Slots)
    → r < 2 ^ 32
    → l ≡ 1
    → 2 ≤ n
    → c ≡ m + n - 1
    → all_valid s' ≡ true
    → subs s' ≡ 1
    → is_some (at s' 0) ≡ true
    → ((d : ℕ) → child_of d m n s' ≡ (if c == d then none else child_of d m n s))
    → Removed c r m n l s b (shrink b r m n l s' c)
shrink_first b c r m n l s s' hr hl hn hc v one e f = elim (Option-cases (at s' 0)) [
  | inl bad ↦ absurd (ground arith)
  | inr (t, eq) ↦ (
    m,
    1,
    l,
    sub t end,
    ground (arith, ==_iff l 1, ==_iff c m, ==_iff c (m + n - 1)),
    valid_of r m 1 l (sub t end) hr refl hl (inr (refl, refl)) (valid_sub s' 0 t v eq),
    (λ d. child_of-first d m n s' t one eq (omega arith) ∙ f d),
  )
]

shrink_table :
    (b : Bool) (c r m n l : ℕ) (s s' : Slots)
    → r < 2 ^ 32
    → 2 ≤ n
    → n ≡ slots_len s'
    → l ≡ subs s'
    → 2 ≤ l
    → all_valid s' ≡ true
    → ((c ≡ m) ⊎ (is_some (at s' 0) ≡ true))
    → ((c ≡ m + n - 1) ⊎ (is_some (at s' (n - 1)) ≡ true))
    → ((d : ℕ) → child_of d m n s' ≡ (if c == d then none else child_of d m n s))
    → Removed c r m n l s b (shrink b r m n l s' c)
shrink_table b c r m n l s s' hr hn hs hl two v first last f = elim (Bool-cases (c == m)) [
  | inl eq ↦ (
    m + leading s',
    n - leading s',
    l,
    skip (leading s') s',
    ground (arith, eq, leading_lem s', ==_iff l 1, ==_iff (leading s') n),
    valid_of r (m + leading s') (n - leading s') l (skip (leading s') s') hr
        (ground (arith, skip_len (leading s') s')) (ground (arith, leading_lem s'))
        (inr (
          ground (arith, leading_lem s', at-skip (leading s') 0 s'),
          ground
              (arith, eq, ==_iff c m, leading_lem s', at-skip (leading s') (n - leading s' - 1) s'),
        ))
        (all_valid-skip (leading s') s' v),
    (λ d. child_of-skip d m n s' (ground (arith, leading_lem s')) ∙ f d),
  )
  | inr ne ↦ elim (Bool-cases (c == m + n - 1)) [
    | inl eq ↦ (
      m,
      used s',
      l,
      keep (used s') s',
      ground (arith, ne, eq, ==_iff l 1, ==_iff (used s') 0, ==_iff c m, at-used s' 0),
      valid_of r m (used s') l (keep (used s') s') hr
          (ground (arith, keep_len (used s') s', used_lem s')) (ground (arith, used_lem s'))
          (inr (
            ground (arith, ne, ==_iff c m, at-used s' 0, at-keep (used s') 0 s'),
            ground (
              arith,
              ne,
              ==_iff c m,
              at-used s' 0,
              used_lem s',
              at-keep (used s') (used s' - 1) s',
            ),
          ))
          (all_valid-keep (used s') s' v),
      (λ d. child_of-keep d m n s' (ground (arith, used_lem s')) ∙ f d),
    )
    | inr ne' ↦ (
      m,
      n,
      l,
      s',
      ground (arith, ne, ne', ==_iff l 1),
      valid_of r m n l s' hr hs hl
          (inr (ground (arith, ne, ==_iff c m), ground (arith, ne', ==_iff c (m + n - 1)))) v,
      f,
    )
  ]
]

ltb_two : (l : ℕ) → 2 ≤ l → ltb 1 l ≡ true
ltb_two l h = ground arith

remove_lem :
    (b : Bool) (c r m n l : ℕ) (s s' : Slots)
    → r < 2 ^ 32
    → 2 ≤ n
    → n ≡ slots_len s'
    → l ≡ subs s'
    → 1 ≤ l
    → all_valid s' ≡ true
    → (c ≡ m) ⊎ (is_some (at s' 0) ≡ true)
    → (c ≡ m + n - 1) ⊎ (is_some (at s' (n - 1)) ≡ true)
    → ((d : ℕ) → child_of d m n s' ≡ (if c == d then none else child_of d m n s))
    → Removed c r m n l s b (shrink b r m n l s' c)
remove_lem b c r m n l s s' hr hn hs hl pos_l v first last f = elim (Bool-cases (l == 1)) [
  | inl eq ↦
      (let one : l ≡ 1 = ground (arith, ==_iff l 1) in
        elim first [
          | inl at_first ↦
              shrink_last b c r m n l s s' hr one (omega arith) at_first v (omega arith)
                (ground (arith)) f
          | inr filled ↦
              shrink_first b c r m n l s s' hr one hn (ground (arith, two_subs s' 0 (n - 1))) v
                (omega arith) filled f
        ])
  | inr ne ↦ shrink_table b c r m n l s s' hr hn hs hl (ground (arith, ==_iff l 1)) v first last f
]

-- Taking away a child of a well-formed node fails no assertion, and leaves a well-formed node.
pub remove_child_lem :
    (b : Bool) (c r m n l : ℕ) (s : Slots) (t : Trie)
    → valid (node r m n l s) ≡ true
    → is_outside c m n ≡ false
    → at s (c - m) ≡ some t
    → Removed c r m n l s b (remove_child b r m n l s c)
remove_child_lem b c r m n l s t v o a =
    let (hr, hn, hl, ends, va) = valid_lem r m n l s v in
    let (inside, low, high) = inside_lem c m n o in
    let s' : Slots = clear s (c - m) in
    let (hn', hs', va') = cleared c m n s t hn va a in
    elim (Bool-cases (n == 1)) [
      | inl one ↦ (
        m,
        0,
        0,
        end,
        ground (arith, one, ==_iff n 1, subs_le s, ==_iff (l - 1) 0),
        valid_of r m 0 0 end hr refl refl (inl refl) valid_end,
        (λ d. ground (arith, one, ==_iff n 1, ==_iff c d)),
      )
      | inr ne ↦
          (let two : 2 ≤ l = ground (arith, ne, ==_iff n 1, two_subs s 0 (n - 1)) in
            let first : (c ≡ m) ⊎ (is_some (at s' 0) ≡ true) =
              ground (arith, ne, ==_iff n 1, at-clear s (c - m) 0, ==_iff (c - m) 0) in
            let last : (c ≡ m + n - 1) ⊎ (is_some (at s' (n - 1)) ≡ true) =
              ground (arith, ne, ==_iff n 1, at-clear s (c - m) (n - 1), ==_iff (c - m) (n - 1)) in
            rw (ne) (
              rw (ltb_two l two) (
                remove_lem b c r m n (l - 1) s s' hr (ground (arith, ==_iff n 1, ne)) hn'
                  (omega arith) (omega arith) va' first last (λ d. child_of-clear c d m n s o))))
    ]
