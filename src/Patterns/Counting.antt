-- ===== src/Patterns/Counting.antt =====
-- Patterns that are added more than once (src/pattern/pattern_trie.cpp): they match until they were
-- removed as often.
use serverlink.Prelude.{
  ℕ, ◌+◌, ◌<◌, ◌^◌, ◌≡◌, refl, arith, true, ◌||◌, if◌then◌else◌, Option, none, some, List, [], ◌∷◌,
  ◌++◌, Bytes, bytes_beq, bytes_beq_refl, bytes_beq_iff, Bool-cases, Option-cases, inl, inr,
}
use serverlink.Glob.{Segment, compile, match}
use serverlink.Patterns.{
  PatternEntry, PatternTrie, find_pattern, inc32, dec32, set_refcount, erase_entry, add, rm, check,
}

-- How often a pattern counts.
abbrev pub refs_of : Option PatternEntry → ℕ
refs_of none = 0
refs_of (some e) = e.refcount

abbrev pub refs : Bytes → PatternTrie → ℕ
refs pattern t = refs_of (find_pattern pattern t)

-- Each entry counts, keeps the compiled form of its pattern, and is the only one for it.
unfoldable pub IsValid : PatternTrie → Type 0
IsValid [] = Unit
IsValid (e ∷ t) =
    (0 < e.refcount)
    × (e.refcount < 2 ^ 32)
    × (e.matcher ≡ compile e.pattern_str)
    × (find_pattern e.pattern_str t ≡ none)
    × IsValid t

find-append :
    (p : Bytes) (t : PatternTrie) (e : PatternEntry)
    → find_pattern p (t ++ e ∷ []) ≡ elim (find_pattern p t) [
      | some x ↦ some x
      | none ↦ if bytes_beq e.pattern_str p then some e else none
    ]
unfolding find_pattern
find-append p [] e = refl
find-append p (x ∷ t) e = ground (arith, find-append p t e)

erase-append :
    (p : Bytes) (t : PatternTrie) (e : PatternEntry)
    → find_pattern p t ≡ none
    → e.pattern_str ≡ p
    → erase_entry p (t ++ e ∷ []) ≡ t
unfolding find_pattern erase_entry
erase-append p [] e absent eq = ground (arith, bytes_beq_iff e.pattern_str p)
erase-append p (x ∷ t) e absent eq = ground (arith, erase-append p t e)

set-set :
    (p : Bytes) (n m : ℕ) (t : PatternTrie)
    → set_refcount p m (set_refcount p n t) ≡ set_refcount p m t
unfolding set_refcount
set-set p n m [] = refl
set-set p n m (x ∷ t) = ground (arith, set-set p n m t)

set-refs :
    (p : Bytes) (e : PatternEntry) (t : PatternTrie)
    → find_pattern p t ≡ some e
    → set_refcount p e.refcount t ≡ t
unfolding find_pattern set_refcount
set-refs p e [] eq = ground arith
set-refs p e (x ∷ t) eq = ground (arith, set-refs p e t)

find_pattern-set :
    (p : Bytes) (n : ℕ) (e : PatternEntry) (t : PatternTrie)
    → find_pattern p t ≡ some e
    → find_pattern p (set_refcount p n t) ≡ some (record e { refcount = n })
unfolding find_pattern set_refcount
find_pattern-set p n e [] eq = ground arith
find_pattern-set p n e (x ∷ t) eq = ground (arith, find_pattern-set p n e t)

-- What is true of an entry that is found in a valid trie.
find_pattern-IsValid :
    (p : Bytes) (e : PatternEntry) (t : PatternTrie)
    → IsValid t
    → find_pattern p t ≡ some e
    → (0 < e.refcount) × (e.refcount < 2 ^ 32) × (e.matcher ≡ compile p) × (e.pattern_str ≡ p)
unfolding find_pattern IsValid
find_pattern-IsValid p e [] v eq = ground arith
find_pattern-IsValid p e (x ∷ t) (a, b, c, d, v) eq =
    ground (arith, bytes_beq_iff x.pattern_str p, find_pattern-IsValid p e t v)

check-append :
    (text : Bytes) (t : PatternTrie) (e : PatternEntry)
    → check text (t ++ e ∷ []) ≡ (check text t || match e.matcher text)
unfolding check
check-append text [] e = ground arith
check-append text (x ∷ t) e = ground (arith, check-append text t e)

check-set :
    (text p : Bytes) (n : ℕ) (t : PatternTrie) → check text (set_refcount p n t) ≡ check text t
unfolding check set_refcount
check-set text p n [] = refl
check-set text p n (x ∷ t) = ground (arith, check-set text p n t)

-- A pattern that a valid trie has matches what its entry matches.
check-find :
    (text p : Bytes) (e : PatternEntry) (t : PatternTrie)
    → IsValid t
    → find_pattern p t ≡ some e
    → match (compile p) text ≡ true
    → check text t ≡ true
unfolding check find_pattern IsValid
check-find text p e [] v eq m = ground arith
check-find text p e (x ∷ t) (a, b, c, d, v) eq m =
    ground (arith, bytes_beq_iff x.pattern_str p, check-find text p e t v)

find_pattern-set-other :
    (p q : Bytes) (n : ℕ) (t : PatternTrie)
    → find_pattern q t ≡ none
    → find_pattern q (set_refcount p n t) ≡ none
unfolding find_pattern set_refcount
find_pattern-set-other p q n [] eq = refl
find_pattern-set-other p q n (x ∷ t) eq = ground (arith, find_pattern-set-other p q n t)

find_pattern-erase-other :
    (p q : Bytes) (t : PatternTrie)
    → find_pattern q t ≡ none
    → find_pattern q (erase_entry p t) ≡ none
unfolding find_pattern erase_entry
find_pattern-erase-other p q [] eq = refl
find_pattern-erase-other p q (x ∷ t) eq = ground (arith, find_pattern-erase-other p q t)

set_refcount-IsValid :
    (p : Bytes) (n : ℕ) (t : PatternTrie)
    → 0 < n
    → n < 2 ^ 32
    → IsValid t
    → IsValid (set_refcount p n t)
unfolding set_refcount IsValid
set_refcount-IsValid p n [] lo hi v = tt
set_refcount-IsValid p n (x ∷ t) lo hi (a, b, c, d, v) =
    elim (Bool-cases (bytes_beq x.pattern_str p)) [
      | inl eq ↦ ground (arith, eq)
      | inr eq ↦ ground (
        arith,
        eq,
        find_pattern-set-other p x.pattern_str n t,
        set_refcount-IsValid p n t lo hi v,
      )
    ]

erase_entry-IsValid : (p : Bytes) (t : PatternTrie) → IsValid t → IsValid (erase_entry p t)
unfolding erase_entry IsValid
erase_entry-IsValid p [] v = tt
erase_entry-IsValid p (x ∷ t) (a, b, c, d, v) = elim (Bool-cases (bytes_beq x.pattern_str p)) [
  | inl eq ↦ ground (arith, eq)
  | inr eq ↦
      ground (arith, eq, find_pattern-erase-other p x.pattern_str t, erase_entry-IsValid p t v)
]

append-IsValid :
    (p : Bytes) (m : Option (List Segment)) (t : PatternTrie)
    → m ≡ compile p
    → IsValid t
    → find_pattern p t ≡ none
    → IsValid (t ++ record { pattern_str = p; matcher = m; refcount = 1 } ∷ [])
unfolding find_pattern IsValid
append-IsValid p m [] eq v free = ground arith
append-IsValid p m (x ∷ t) eq (a, b, c, d, v) free = elim (Bool-cases (bytes_beq x.pattern_str p)) [
  | inl same ↦ ground (arith, same)
  | inr other ↦ ground (
    arith,
    other,
    bytes_beq_iff x.pattern_str p,
    bytes_beq_iff p x.pattern_str,
    find-append x.pattern_str t (record { pattern_str = p; matcher = m; refcount = 1 }),
    append-IsValid p m t eq v,
  )
]

-- Subscribing keeps a trie valid, unless the count of the pattern is already the greatest.
pub add-IsValid :
    (p : Bytes) (t : PatternTrie) → refs p t + 1 < 2 ^ 32 → IsValid t → IsValid (add p t).1
unfolding add
add-IsValid p t hi v = elim (Option-cases (find_pattern p t)) [
  | inl eq ↦ elim (Option-cases (compile p)) [
    | inl bad ↦ ground (arith, eq, bad)
    | inr (m, good) ↦ ground (arith, eq, good, append-IsValid p (some m) t)
  ]
  | inr (e, eq) ↦
      ground (arith, eq, find_pattern-IsValid p e t v, set_refcount-IsValid p (inc32 e.refcount) t)
]

pub rm-IsValid : (p : Bytes) (t : PatternTrie) → IsValid t → IsValid (rm p t).1
unfolding rm
rm-IsValid p t v = elim (Option-cases (find_pattern p t)) [
  | inl eq ↦ ground (arith, eq)
  | inr (e, eq) ↦ ground (
    arith,
    eq,
    find_pattern-IsValid p e t v,
    erase_entry-IsValid p t v,
    set_refcount-IsValid p (dec32 e.refcount) t,
  )
]

rm-append :
    (p : Bytes) (m : List Segment) (t : PatternTrie)
    → find_pattern p t ≡ none
    → (rm p (t ++ record { pattern_str = p; matcher = some m; refcount = 1 } ∷ [])).1 ≡ t
unfolding rm
rm-append p m t eq =
    let e : PatternEntry = record { pattern_str = p; matcher = some m; refcount = 1 } in
    ground (arith, find-append p t e, erase-append p t e, bytes_beq_refl p)

rm-set :
    (p : Bytes) (e : PatternEntry) (t : PatternTrie)
    → find_pattern p t ≡ some e
    → 0 < e.refcount
    → e.refcount + 1 < 2 ^ 32
    → (rm p (set_refcount p (inc32 e.refcount) t)).1 ≡ t
unfolding rm
rm-set p e t eq lo hi = ground (
  arith,
  find_pattern-set p (inc32 e.refcount) e t eq,
  set-set p (inc32 e.refcount) e.refcount t,
  set-refs p e t eq,
)

-- For a valid trie in which a pattern counts less than 2^32 - 1 times, removing the pattern after it
-- was added gives the trie back, also when the pattern does not compile.
pub rm-add :
    (p : Bytes) (t : PatternTrie) → refs p t + 1 < 2 ^ 32 → IsValid t → (rm p (add p t).1).1 ≡ t
unfolding add rm
rm-add p t hi v = elim (Option-cases (find_pattern p t)) [
  | inl eq ↦ elim (Option-cases (compile p)) [
    | inl bad ↦ ground (arith, eq, bad)
    | inr (m, good) ↦ ground (arith, eq, good, rm-append p m t eq)
  ]
  | inr (e, eq) ↦ ground (arith, eq, find_pattern-IsValid p e t v, rm-set p e t)
]

-- A valid trie to which a pattern was added matches what it matched before, and what the pattern matches;
-- a pattern that does not compile matches nothing.
pub check-add :
    (text p : Bytes) (t : PatternTrie)
    → IsValid t
    → check text (add p t).1 ≡ (check text t || match (compile p) text)
unfolding add match
check-add text p t v = elim (Option-cases (find_pattern p t)) [
  | inl eq ↦ elim (Option-cases (compile p)) [
    | inl bad ↦ ground (arith, eq, bad)
    | inr (m, good) ↦ ground (
      arith,
      eq,
      good,
      check-append text t (record { pattern_str = p; matcher = some m; refcount = 1 }),
    )
  ]
  | inr (e, eq) ↦ ground (arith, eq, check-set text p (inc32 e.refcount) t, check-find text p e t v)
]
