-- ===== src/Trie/Lookup.antt =====
-- Whether a text begins with a prefix that was subscribed to (src/pipe/trie.cpp).
use serverlink.Prelude.{
  ℕ, ◌≡◌, inl, inr, refl, arith, ◌==◌, ==_iff, Bool, true, false, not, ◌||◌, if◌then◌else◌, none,
  some, List, [], ◌∷◌, Bytes, map, Option-cases,
}
use serverlink.Trie.Tables.{Trie, Slots, node}
use serverlink.Trie.Cuts.{valid}
use serverlink.Trie.{check}
use serverlink.Trie.Refs.{child_of, refs, refs-cons, valid_lem, inside_lem}
use serverlink.Trie.Removal.{child_some, child_valid}

abbrev pub prefixes : Bytes → List Bytes
prefixes [] = [] ∷ []
prefixes (c ∷ cs) = [] ∷ map (λ p. c ∷ p) (prefixes cs)

-- Some text of a list was subscribed to.
abbrev pub any_refs : List Bytes → Trie → Bool
any_refs [] t = false
any_refs (p ∷ ps) t = not (refs p t == 0) || any_refs ps t

any_refs-below :
    (c : ℕ) (ps : List Bytes) (r m n l : ℕ) (s : Slots) (t : Trie)
    → child_of c m n s ≡ some t
    → any_refs (map (λ p. c ∷ p) ps) (node r m n l s) ≡ any_refs ps t
any_refs-below c [] r m n l s t h = refl
any_refs-below c (p ∷ ps) r m n l s t h =
    ground (arith, refs-cons c p r m n l s, any_refs-below c ps r m n l s t)

any_refs-nothing :
    (c : ℕ) (ps : List Bytes) (r m n l : ℕ) (s : Slots)
    → child_of c m n s ≡ none
    → any_refs (map (λ p. c ∷ p) ps) (node r m n l s) ≡ false
any_refs-nothing c [] r m n l s h = refl
any_refs-nothing c (p ∷ ps) r m n l s h =
    ground (arith, refs-cons c p r m n l s, any_refs-nothing c ps r m n l s)

any_refs-root :
    (r m n l : ℕ) (s : Slots) (ps : List Bytes)
    → any_refs ([] ∷ ps) (node r m n l s) ≡ (not (r == 0) || any_refs ps (node r m n l s))
unfolding refs
any_refs-root r m n l s ps = refl

check_found :
    (c : ℕ) (cs : Bytes) (r m n l : ℕ) (s : Slots) (t : Trie)
    → child_of c m n s ≡ some t
    → check (c ∷ cs) (node r m n l s) ≡ (if not (r == 0) then some true else check cs t)
unfolding check
check_found c cs r m n l s t h = let (o, a) = child_some c m n s t h in rw (o, a) refl

check_absent :
    (c : ℕ) (cs : Bytes) (r m n l : ℕ) (s : Slots)
    → valid (node r m n l s) ≡ true
    → child_of c m n s ≡ none
    → check (c ∷ cs) (node r m n l s) ≡ some (not (r == 0))
unfolding check
check_absent c cs r m n l s v h =
    let (hr, hn, hl, ends, va) = valid_lem r m n l s v in
    ground (arith, inside_lem c m n, ==_iff n 1)

-- A well-formed trie uses no child that is not there, and says of a text whether one of its prefixes, the
-- empty one and itself included, was subscribed to.
pub check_lem : (q : Bytes) (t : Trie) → valid t ≡ true → check q t ≡ some (any_refs (prefixes q) t)
unfolding check
check_lem [] (node r m n l s) v = ground (arith, any_refs-root r m n l s [])
check_lem (c ∷ cs) (node r m n l s) v =
    let (hr, hn, hl, ends, va) = valid_lem r m n l s v in
    elim (Option-cases (child_of c m n s)) [
      | inl absent ↦ ground (
        arith,
        check_absent c cs r m n l s v absent,
        any_refs-nothing c (prefixes cs) r m n l s absent,
        any_refs-root r m n l s (map (λ p. c ∷ p) (prefixes cs)),
      )
      | inr (t, found) ↦ ground (
        arith,
        check_found c cs r m n l s t found,
        check_lem cs t (child_valid c m n s t va found),
        any_refs-below c (prefixes cs) r m n l s t found,
        any_refs-root r m n l s (map (λ p. c ∷ p) (prefixes cs)),
      )
    ]
