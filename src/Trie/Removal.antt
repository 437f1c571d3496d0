-- ===== src/Trie/Removal.antt =====
-- Taking a prefix out of the trie of src/pipe/trie.cpp.
use serverlink.Prelude.{
  ℕ, ◌-◌, ◌≡◌, inl, inr, refl, sym, ap, ◌∙◌, arith, ◌==◌, ==_iff, Bool, true, false, if◌then◌else◌,
  Option, none, some, [], ◌∷◌, Bytes, bytes_beq, bytes_beq_iff, Bool-cases, Option-cases,
}
use serverlink.Trie.Tables.{Trie, Slots, node, at, put, is_redundant, at-put, put_lem, at_lem}
use serverlink.Trie.Cuts.{valid, all_valid, all_valid-at, all_valid-put}
use serverlink.Trie.{done, is_outside, after_rm, rm}
use serverlink.Trie.Refs.{
  child_of, refs, valid_lem, inside_lem, child_of-put, refs_at, refs-cons, refs_at-if, valid_of,
}
use serverlink.Trie.Shrink.{remove_child_lem}

-- A well-formed redundant node holds no prefix.
redundant_refs : (t : Trie) (q : Bytes) → valid t ≡ true → is_redundant t ≡ true → refs q t ≡ 0
unfolding refs
redundant_refs (node r m n l s) [] v h = ground (arith, ==_iff r 0)
redundant_refs (node r m n l s) (d ∷ ds) v h =
    let (hr, hn, hl, ends, va) = valid_lem r m n l s v in
    ground (arith, ==_iff l 0, at_lem s 0, refs-cons d ds r m n l s)

-- A child keeps its place, with other contents.
put-valid :
    (c r m n l : ℕ) (s : Slots) (t u : Trie)
    → valid (node r m n l s) ≡ true
    → is_outside c m n ≡ false
    → at s (c - m) ≡ some t
    → valid u ≡ true
    → is_redundant u ≡ false
    → valid (node r m n l (put s (c - m) u)) ≡ true
put-valid c r m n l s t u v o a w k =
    let (hr, hn, hl, ends, va) = valid_lem r m n l s v in
    let (inside, low, high) = inside_lem c m n o in
    ground (
      arith,
      put_lem s (c - m) u,
      at-put s (c - m) 0 u,
      at-put s (c - m) (n - 1) u,
      all_valid-put s (c - m) u va w k,
      valid_of r m n l (put s (c - m) u),
    )

-- What a prefix counts after it was taken out once.
abbrev pub less : Bytes → Bytes → ℕ → ℕ
less q p k = if bytes_beq q p then k - 1 else k

pub child_some :
    (c m n : ℕ) (s : Slots) (t : Trie)
    → child_of c m n s ≡ some t
    → (is_outside c m n ≡ false) × (at s (c - m) ≡ some t)
child_some c m n s t h = ground arith

rm_absent :
    (c : ℕ) (cs : Bytes) (r m n l : ℕ) (s : Slots)
    → child_of c m n s ≡ none
    → rm (c ∷ cs) (node r m n l s) ≡ done false (node r m n l s)
unfolding rm
rm_absent c cs r m n l s h = ground arith

rm_present :
    (c : ℕ) (cs : Bytes) (r m n l : ℕ) (s : Slots) (t : Trie)
    → child_of c m n s ≡ some t
    → rm (c ∷ cs) (node r m n l s) ≡ after_rm r m n l s c (rm cs t)
unfolding rm
rm_present c cs r m n l s t h =
    let (o, a) = child_some c m n s t h in
    rw (o, a) (ground (arith, inside_lem c m n o, ==_iff n 0))

rm_root : (r m n l : ℕ) (s : Slots) → rm [] (node r m n l s) ≡ done (r == 1) (node (r - 1) m n l s)
unfolding rm
rm_root r m n l s = ground (arith, ==_iff r 0, ==_iff r 1, ==_iff (r - 1) 0)

refs-root_less :
    (r m n l : ℕ) (s : Slots) (q : Bytes)
    → refs q (node (r - 1) m n l s) ≡ less q [] (refs q (node r m n l s))
unfolding refs
refs-root_less r m n l s [] = refl
refs-root_less r m n l s (d ∷ ds) = ground (arith, bytes_beq_iff (d ∷ ds) [])

-- A node in which only the child at one byte changed.
refs-less :
    (c r m n l m' n' l' : ℕ) (cs : Bytes) (s s' : Slots) (t u : Trie)
    → child_of c m n s ≡ some t
    → ((d : ℕ) (ds : Bytes)
        → refs_at ds (child_of d m' n' s')
          ≡ (if c == d then refs ds u else refs_at ds (child_of d m n s)))
    → ((q : Bytes) → refs q u ≡ less q cs (refs q t))
    → (q : Bytes) → refs q (node r m' n' l' s') ≡ less q (c ∷ cs) (refs q (node r m n l s))
unfolding refs
refs-less c r m n l m' n' l' cs s s' t u h k f [] = ground (arith, bytes_beq_iff [] (c ∷ cs))
refs-less c r m n l m' n' l' cs s s' t u h k f (d ∷ ds) = ground (
  arith,
  refs-cons d ds r m n l s,
  refs-cons d ds r m' n' l' s',
  k d ds,
  f ds,
  ==_iff c d,
  bytes_beq_iff ds cs,
  bytes_beq_iff (d ∷ ds) (c ∷ cs),
)

pub child_valid :
    (c m n : ℕ) (s : Slots) (t : Trie)
    → all_valid s ≡ true
    → child_of c m n s ≡ some t
    → valid t ≡ true
child_valid c m n s t v h = ground (arith, all_valid-at s (c - m) v)

refs-absent :
    (c : ℕ) (cs : Bytes) (r m n l : ℕ) (s : Slots)
    → child_of c m n s ≡ none
    → (q : Bytes) → refs q (node r m n l s) ≡ less q (c ∷ cs) (refs q (node r m n l s))
refs-absent c cs r m n l s h q = ground (arith, bytes_beq_iff q (c ∷ cs), refs-cons c cs r m n l s)

rm_nothing :
    (c : ℕ) (cs : Bytes) (r m n l : ℕ) (s : Slots)
    → child_of c m n s ≡ none
    → rm (c ∷ cs) (node r m n l s) ≡ done (refs (c ∷ cs) (node r m n l s) == 1) (node r m n l s)
rm_nothing c cs r m n l s h =
    rm_absent c cs r m n l s h
    ∙ ap (λ k. done (k == 1) (node r m n l s)) (sym (refs-cons c cs r m n l s ∙ ap (refs_at cs) h))

refs_at-none :
    (b : Bool) (ds : Bytes) (u : Trie) (x : Option Trie)
    → refs ds u ≡ 0
    → refs_at ds (if b then none else x) ≡ (if b then refs ds u else refs_at ds x)
refs_at-none true ds u x h = sym h
refs_at-none false ds u x h = refl

refs-found :
    (c : ℕ) (cs : Bytes) (r m n l : ℕ) (s : Slots) (t : Trie)
    → child_of c m n s ≡ some t
    → refs (c ∷ cs) (node r m n l s) ≡ refs cs t
refs-found c cs r m n l s t h = refs-cons c cs r m n l s ∙ ap (refs_at cs) h

rm_found :
    (c : ℕ) (cs : Bytes) (r m n l : ℕ) (s : Slots) (t u : Trie)
    → valid (node r m n l s) ≡ true
    → child_of c m n s ≡ some t
    → rm cs t ≡ done (refs cs t == 1) u
    → valid u ≡ true
    → ((q : Bytes) → refs q u ≡ less q cs (refs q t))
    → (t' : Trie) × (rm (c ∷ cs) (node r m n l s) ≡ done (refs cs t == 1) t')
      × (valid t' ≡ true)
      × ((q : Bytes) → refs q t' ≡ less q (c ∷ cs) (refs q (node r m n l s)))
rm_found c cs r m n l s t u v found eq w f =
    let (hr, hn, hl, ends, va) = valid_lem r m n l s v in
    let (o, a) = child_some c m n s t found in
    let b : Bool = refs cs t == 1 in
    let start : rm (c ∷ cs) (node r m n l s) ≡ after_rm r m n l s c (done b u) =
      rm_present c cs r m n l s t found ∙ ap (after_rm r m n l s c) eq in
    elim (Bool-cases (is_redundant u)) [
      | inl red ↦
          (let (m', n', l', s', removed, ok, k) = remove_child_lem b c r m n l s t v o a in
            (
              node r m' n' l' s',
              start ∙ rw (red) removed,
              ok,
              refs-less c r m n l m' n' l' cs s s' t u found
                  (λ d ds.
                    ap (refs_at ds) (k d)
                    ∙ refs_at-none (c == d) ds u (child_of d m n s) (redundant_refs u ds w red))
                  f,
            ))
      | inr full ↦ (
        node r m n l (put s (c - m) u),
        start ∙ rw (full) refl,
        put-valid c r m n l s t u v o a w full,
        refs-less c r m n l m n l cs s (put s (c - m) u) t u found
            (λ d ds.
              ap (refs_at ds) (child_of-put c d m n s u hn o)
              ∙ refs_at-if (c == d) ds u (child_of d m n s))
            f,
      )
    ]

-- Taking a prefix out of a well-formed trie fails no assertion; the answer is whether the prefix was there
-- once, the trie stays well-formed, and the count of this prefix goes down by one if it was there, that
-- of every other prefix stays.
pub rm_lem :
    (p : Bytes) (t : Trie)
    → valid t ≡ true
    → (t' : Trie) × (rm p t ≡ done (refs p t == 1) t')
      × (valid t' ≡ true)
      × ((q : Bytes) → refs q t' ≡ less q p (refs q t))
unfolding refs
rm_lem [] (node r m n l s) v =
    let (hr, hn, hl, ends, va) = valid_lem r m n l s v in
    (
      node (r - 1) m n l s,
      rm_root r m n l s,
      valid_of (r - 1) m n l s (omega arith) hn hl ends va,
      refs-root_less r m n l s,
    )
rm_lem (c ∷ cs) (node r m n l s) v =
    let (hr, hn, hl, ends, va) = valid_lem r m n l s v in
    elim (Option-cases (child_of c m n s)) [
      | inl absent ↦
          (node r m n l s, rm_nothing c cs r m n l s absent, v, refs-absent c cs r m n l s absent)
      | inr (t, found) ↦
          (let (u, eq, w, f) = rm_lem cs t (child_valid c m n s t va found) in
            let (t', removed, ok, g) = rm_found c cs r m n l s t u v found eq w f in
            (
              t',
              removed ∙ ap (λ k. done (k == 1) t') (sym (refs-found c cs r m n l s t found)),
              ok,
              g,
            ))
    ]
