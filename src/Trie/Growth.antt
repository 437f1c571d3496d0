-- ===== src/Trie/Growth.antt =====
-- Subscribing to a prefix in the trie of src/pipe/trie.cpp.
use serverlink.Prelude.{
  ℕ, ◌+◌, ◌-◌, ◌≤◌, ◌<◌, ◌^◌, ◌≡◌, ◌⊎◌, refl, sym, ap, ◌∙◌, arith, ◌==◌, ==_iff, ltb, Bool, true,
  false, if◌then◌else◌, [], ◌∷◌, Bytes, bytes_beq, bytes_beq_iff, Option-cases,
}
use serverlink.Trie.Tables.{
  Trie, Slots, node, end, slots_len, at, put, subs, is_some, is_redundant, at-put, put_lem, at-gaps,
  gaps_lem, at-pad, pad_lem, at_lem, subs_le,
}
use serverlink.Trie.Cuts.{
  valid, all_valid, all_valid-at, all_valid-put, all_valid-gaps, all_valid-pad,
}
use serverlink.Trie.{done, Table, is_outside, grow, or_new, live_after, is_counted, add}
use serverlink.Trie.Refs.{
  child_of, refs, valid_lem, inside_lem, child_of-put, refs_at, refs-or_new, refs-cons,
  valid-or_new, child_inside, refs_at-if,
}

grow-child_of :
    (c d m n : ℕ) (s : Slots)
    → n ≡ slots_len s
    → child_of d (grow c m n s).smallest (grow c m n s).count (grow c m n s).slots
      ≡ child_of d m n s
grow-child_of c d m n s h = ground (
  arith,
  at-pad s (c - m + 1 - n) (d - m),
  at-gaps (m - c) (d - c) s,
  at-gaps 1 (d - c) end,
  at_lem s (d - m),
)

grow_lem :
    (c m n : ℕ) (s : Slots)
    → n ≡ slots_len s
    → all_valid s ≡ true
    → ((grow c m n s).count ≡ slots_len (grow c m n s).slots)
      × (subs (grow c m n s).slots ≡ subs s)
      × (is_outside c (grow c m n s).smallest (grow c m n s).count ≡ false)
      × (all_valid (grow c m n s).slots ≡ true)
unfolding valid
grow_lem c m n s h v = ground (
  arith,
  subs_le s,
  ==_iff n 0,
  pad_lem s (c - m + 1 - n),
  gaps_lem (m - c) s,
  all_valid-pad s (c - m + 1 - n) v,
  all_valid-gaps (m - c) s v,
)

-- Growing keeps the ends of the table filled, but for the place of the byte.
grow_filled :
    (c m n : ℕ) (s : Slots)
    → n ≡ slots_len s
    → (n ≡ 0) ⊎ ((is_some (at s 0) ≡ true) × (is_some (at s (n - 1)) ≡ true))
    → let g = grow c m n s in
      let i = c - g.smallest in
      ((i ≡ 0) ⊎ (is_some (at g.slots 0) ≡ true))
      × ((i ≡ g.count - 1) ⊎ (is_some (at g.slots (g.count - 1)) ≡ true))
grow_filled c m n s h e =
    let last : m + n - c - 1 - (m - c) ≡ (if ltb c m then n - 1 else m + n - c - 1) =
      ground arith in
    ground (
      arith,
      ==_iff n 0,
      at-pad s (c - m + 1 - n) 0,
      at-gaps (m - c) (m + n - c - 1) s,
      ap (at s) last,
    )

old_lem :
    (c m n : ℕ) (s : Slots)
    → n ≡ slots_len s
    → all_valid s ≡ true
    → at (grow c m n s).slots (c - (grow c m n s).smallest) ≡ child_of c m n s
old_lem c m n s h v =
    let g : Table = grow c m n s in
    sym (child_inside c g.smallest g.count g.slots (grow_lem c m n s h v).2)
    ∙ grow-child_of c c m n s h

put_node :
    (r m n l i : ℕ) (s : Slots) (u : Trie)
    → r < 2 ^ 32
    → n ≡ slots_len s
    → l ≡ subs s
    → all_valid s ≡ true
    → i < n
    → (i ≡ 0) ⊎ (is_some (at s 0) ≡ true)
    → (i ≡ n - 1) ⊎ (is_some (at s (n - 1)) ≡ true)
    → valid u ≡ true
    → is_redundant u ≡ false
    → (is_counted n (live_after l (at s i)) (at s i) ≡ true)
      × (valid (node r m n (live_after l (at s i)) (put s i u)) ≡ true)
      × (1 ≤ live_after l (at s i))
unfolding valid
put_node r m n l i s u hr hn hl v hi first last w k = ground (
  arith,
  put_lem s i u,
  subs_le (put s i u),
  all_valid-put s i u v w k,
  at-put s i 0 u,
  at-put s i (n - 1) u,
  at_lem s 0,
  at_lem s i,
  at_lem s (n - 1),
  ==_iff i 0,
  ==_iff i (n - 1),
  ==_iff n (slots_len s),
  ==_iff n 1,
  Option-cases (at s i),
)

put_grown :
    (c r m n l : ℕ) (s : Slots) (u : Trie)
    → valid (node r m n l s) ≡ true
    → valid u ≡ true
    → is_redundant u ≡ false
    → let g = grow c m n s in
      let i = c - g.smallest in
      let old = at g.slots i in
      (is_counted g.count (live_after l old) old ≡ true)
      × (valid (node r g.smallest g.count (live_after l old) (put g.slots i u)) ≡ true)
      × (1 ≤ live_after l old)
put_grown c r m n l s u v w k =
    let (hr, hn, hl, ends, va) = valid_lem r m n l s v in
    let (gn, gl, go, gv) = grow_lem c m n s hn va in
    let (first, last) = grow_filled c m n s hn ends in
    let g : Table = grow c m n s in
    put_node r g.smallest g.count l (c - g.smallest) g.slots u hr gn (hl ∙ sym gl) gv
      (inside_lem c g.smallest g.count go).0 first last w k

-- A node whose child at a byte is replaced.
abbrev added : ℕ → ℕ → ℕ → ℕ → ℕ → Slots → Trie → Trie
added c r m n l s u =
    let g = grow c m n s in
    node r g.smallest g.count (live_after l (at g.slots (c - g.smallest)))
      (put g.slots (c - g.smallest) u)

add-cons :
    (c : ℕ) (cs : Bytes) (r m n l : ℕ) (s : Slots) (b : Bool) (u : Trie)
    → valid (node r m n l s) ≡ true
    → add cs (or_new (child_of c m n s)) ≡ done b u
    → valid u ≡ true
    → is_redundant u ≡ false
    → add (c ∷ cs) (node r m n l s) ≡ done b (added c r m n l s u)
unfolding add
add-cons c cs r m n l s b u v eq w k =
    let (hr, hn, hl, ends, va) = valid_lem r m n l s v in
    rw ((put_grown c r m n l s u v w k).0, old_lem c m n s hn va, eq) refl

valid-child_of :
    (c m n : ℕ) (s : Slots) → all_valid s ≡ true → valid (or_new (child_of c m n s)) ≡ true
valid-child_of c m n s h =
    valid-or_new (child_of c m n s) (ground (arith, all_valid-at s (c - m) h))

refs-added :
    (c d r m n l : ℕ) (ds : Bytes) (s : Slots) (u : Trie)
    → n ≡ slots_len s
    → all_valid s ≡ true
    → refs (d ∷ ds) (added c r m n l s u)
      ≡ (if c == d then refs ds u else refs (d ∷ ds) (node r m n l s))
refs-added c d r m n l ds s u h v =
    let g : Table = grow c m n s in
    let (gn, gl, go, gv) = grow_lem c m n s h v in
    refs-cons d ds r g.smallest g.count (live_after l (at g.slots (c - g.smallest)))
      (put g.slots (c - g.smallest) u)
    ∙ ap (refs_at ds) (child_of-put c d g.smallest g.count g.slots u gn go)
    ∙ refs_at-if (c == d) ds u (child_of d g.smallest g.count g.slots)
    ∙ ap (λ o. if c == d then refs ds u else refs_at ds o) (grow-child_of c d m n s h)
    ∙ ap (λ k. if c == d then refs ds u else k) (sym (refs-cons d ds r m n l s))

refs-root :
    (r m n l : ℕ) (s : Slots) (q : Bytes)
    → refs q (node (r + 1) m n l s) ≡ refs q (node r m n l s) + (if bytes_beq q [] then 1 else 0)
unfolding refs
refs-root r m n l s [] = refl
refs-root r m n l s (d ∷ ds) = ground (arith, bytes_beq_iff (d ∷ ds) [])

refs-below :
    (c r m n l : ℕ) (cs : Bytes) (s : Slots) (u : Trie)
    → n ≡ slots_len s
    → all_valid s ≡ true
    → ((q : Bytes)
        → refs q u ≡ refs q (or_new (child_of c m n s)) + (if bytes_beq q cs then 1 else 0))
    → (q : Bytes)
    → refs q (added c r m n l s u)
      ≡ refs q (node r m n l s) + (if bytes_beq q (c ∷ cs) then 1 else 0)
unfolding refs
refs-below c r m n l cs s u h v f [] = ground arith
refs-below c r m n l cs s u h v f (d ∷ ds) = ground (
  arith,
  refs-added c d r m n l ds s u h v,
  f ds,
  refs-or_new ds (child_of c m n s),
  refs-cons d ds r m n l s,
  ==_iff c d,
  bytes_beq_iff ds cs,
  bytes_beq_iff (d ∷ ds) (c ∷ cs),
)

-- Subscribing to a prefix in a well-formed trie, in which it counts less than 2^32 - 1 times, fails no
-- assertion; the answer is whether the prefix is new, the trie stays well-formed, and the count of this
-- prefix goes up by one, that of every other prefix stays.
pub add_lem :
    (p : Bytes) (t : Trie)
    → valid t ≡ true
    → refs p t + 1 < 2 ^ 32
    → (t' : Trie) × (add p t ≡ done (refs p t == 0) t')
      × (valid t' ≡ true)
      × (is_redundant t' ≡ false)
      × ((q : Bytes) → refs q t' ≡ refs q t + (if bytes_beq q p then 1 else 0))
unfolding add valid refs
add_lem [] (node r m n l s) v h =
    (node (r + 1) m n l s, ground arith, ground arith, ground arith, refs-root r m n l s)
add_lem (c ∷ cs) (node r m n l s) v h =
    let (hr, hn, hl, ends, va) = valid_lem r m n l s v in
    let child : Trie = or_new (child_of c m n s) in
    let same : refs cs child ≡ refs (c ∷ cs) (node r m n l s) =
      refs-or_new cs (child_of c m n s) ∙ sym (refs-cons c cs r m n l s) in
    let (u, eq, w, k, f) = add_lem cs child (valid-child_of c m n s va) (omega (arith, same)) in
    let (counted, wide, live) = put_grown c r m n l s u v w k in
    (
      added c r m n l s u,
      add-cons c cs r m n l s (refs cs child == 0) u v eq w k
          ∙ ap (λ x. done (x == 0) (added c r m n l s u)) same,
      wide,
      ground arith,
      refs-below c r m n l cs s u hn va (λ q. f q),
    )
