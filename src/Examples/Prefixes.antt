-- ===== src/Examples/Prefixes.antt =====
-- A trie that holds one prefix.
use serverlink.Prelude.{
  ◌+◌, ◌≡◌, refl, arith, ◌==◌, true, false, if◌then◌else◌, some, [], ◌∷◌, Bytes, bytes_beq,
}
use serverlink.Trie.Tables.{Trie, node, end, sub, is_redundant}
use serverlink.Trie.Cuts.{valid}
use serverlink.Trie.Refs.{refs}
use serverlink.Trie.{done, add, rm, check, apply, apply_helper}
use serverlink.Trie.Growth.{add_lem}
use serverlink.Trie.Removal.{less, rm_lem}
use serverlink.Trie.Lookup.{prefixes, any_refs, check_lem}

abbrev one_prefix : Trie
one_prefix = node 0 97 1 1 (sub (node 1 0 0 0 end) end)

one_prefix-valid : valid one_prefix ≡ true
unfolding valid
one_prefix-valid = refl

add_lem_example :
    (t' : Trie) × (add (98 ∷ []) one_prefix ≡ done (refs (98 ∷ []) one_prefix == 0) t')
    × (valid t' ≡ true)
    × (is_redundant t' ≡ false)
    × ((q : Bytes) → refs q t' ≡ refs q one_prefix + (if bytes_beq q (98 ∷ []) then 1 else 0))
unfolding refs
add_lem_example = add_lem (98 ∷ []) one_prefix one_prefix-valid (omega arith)

rm_lem_example :
    (t' : Trie) × (rm (97 ∷ []) one_prefix ≡ done (refs (97 ∷ []) one_prefix == 1) t')
    × (valid t' ≡ true)
    × ((q : Bytes) → refs q t' ≡ less q (97 ∷ []) (refs q one_prefix))
rm_lem_example = rm_lem (97 ∷ []) one_prefix one_prefix-valid

check_lem_example :
    check (97 ∷ 98 ∷ []) one_prefix ≡ some (any_refs (prefixes (97 ∷ 98 ∷ [])) one_prefix)
check_lem_example = check_lem (97 ∷ 98 ∷ []) one_prefix one_prefix-valid

-- Two prefixes are listed in the order of their bytes.
apply_two :
    apply (node 0 97 2 2 (sub (node 1 0 0 0 end) (sub (node 1 0 0 0 end) end)))
    ≡ (97 ∷ []) ∷ (98 ∷ []) ∷ []
unfolding apply apply_helper
apply_two = refl
