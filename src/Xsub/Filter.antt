-- ===== src/Xsub/Filter.antt =====
-- Which messages a subscriber takes (src/core/xsub.cpp).
use serverlink.Prelude.{
  ◌≤◌, ◌<◌, ◌≡◌, refl, arith, ==_iff, true, false, not, eq_bool, some, [], ◌∷◌, Bytes,
}
use serverlink.Patterns.{num_patterns}
use serverlink.Trie.Cuts.{valid}
use serverlink.Trie.Tables.{Trie}
use serverlink.Trie.Refs.{refs}
use serverlink.Trie.Lookup.{prefixes, any_refs, check_lem}
use serverlink.Xsub.{Xsub, is_matching, match}

match_checked :
    (text : Bytes) (x : Xsub)
    → valid x.subscriptions.trie ≡ true
    → match text x
      ≡ some (
          not (
            eq_bool
              (is_matching (any_refs (prefixes text) x.subscriptions.trie) text x)
              x.invert_matching))
unfolding match
match_checked text x v = rw (match, check_lem text x.subscriptions.trie v) refl

-- Without patterns, a socket whose trie is well-formed takes a message if one of the message's prefixes was
-- subscribed to, and the other messages if the match is inverted.
pub match_lem :
    (text : Bytes) (x : Xsub)
    → valid x.subscriptions.trie ≡ true
    → num_patterns x.pattern_subscriptions ≡ 0
    → match text x
      ≡ some (not (eq_bool (any_refs (prefixes text) x.subscriptions.trie) x.invert_matching))
unfolding is_matching
match_lem text x v h = ground (arith, match_checked text x v)

any_refs-prefixes : (text : Bytes) (t : Trie) → 1 ≤ refs [] t → any_refs (prefixes text) t ≡ true
any_refs-prefixes [] t h = ground (arith, ==_iff (refs [] t) 0)
any_refs-prefixes (c ∷ cs) t h = ground (arith, ==_iff (refs [] t) 0)

-- With a pattern and with more than one prefix, the empty one included, every message is taken, whether or
-- not it matches the pattern or a prefix that is not empty.
pub match-overlap :
    (text : Bytes) (x : Xsub)
    → valid x.subscriptions.trie ≡ true
    → 1 ≤ refs [] x.subscriptions.trie
    → 1 < x.subscriptions.num_prefixes
    → 0 < num_patterns x.pattern_subscriptions
    → x.invert_matching ≡ false
    → match text x ≡ some true
unfolding is_matching
match-overlap text x v one many patterns h =
    ground (arith, match_checked text x v, any_refs-prefixes text x.subscriptions.trie one)
