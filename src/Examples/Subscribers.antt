-- ===== src/Examples/Subscribers.antt =====
-- A subscriber with the prefix `a` and the pattern `b*`.
use serverlink.Prelude.{
  ℕ, ◌+◌, ◌≡◌, refl, arith, ◌==◌, true, false, ◌||◌, if◌then◌else◌, Option, none, some, List, [],
  ◌∷◌, Bytes, bytes_beq,
}
use serverlink.Msg.{Msg, is_subscribe, is_more, with_flags}
use serverlink.Glob.{star, literal, compile}
use serverlink.Patterns.{find_pattern, num_patterns}
use serverlink.Patterns
use serverlink.Trie
use serverlink.Trie.Tables.{node, end, sub}
use serverlink.Trie.Cuts.{valid}
use serverlink.Trie.Refs.{refs}
use serverlink.Trie.Removal.{less}
use serverlink.Xsub.{
  is_matching, Xsub, new_xsub, init_subscribe, init_cancel, xsend, psubscribe, match, add_prefix,
}
use serverlink.Trie.Lookup.{prefixes, any_refs}
use serverlink.Xsub.Receive.{Incoming, got, xrecv, xrecv_loop, skip_parts, xrecv-prefixes}
use serverlink.Fq.{recvpipe, recv_loop, fetched}
use serverlink.Xsub.Filter.{match-overlap}
use serverlink.Xsub.Upstream.{xsend-init_cancel, xsend-init_cancel_one}

-- The empty prefix was subscribed to with the pattern.
abbrev mixed : Xsub
mixed = record {
  subscriptions = record { trie = node 1 97 1 1 (sub (node 1 0 0 0 end) end); num_prefixes = 2 };
  pattern_subscriptions =
      record {
        pattern_str = b'b' ∷ b'*' ∷ [];
        matcher = some (literal b'b' ∷ star ∷ []);
        refcount = 1;
      }
      ∷ [];
  verbose_unsubs = false;
  more_send = false;
  process_subscribe = true;
  only_first_subscribe = false;
  filter = true;
  invert_matching = false;
}

mixed-valid : valid mixed.subscriptions.trie ≡ true
unfolding valid
mixed-valid = refl

match-overlap_example : match (b'z' ∷ []) mixed ≡ some true
unfolding refs num_patterns
match-overlap_example =
    match-overlap (b'z' ∷ []) mixed mixed-valid (omega arith) (omega arith) (omega arith) refl

abbrev collect : Msg → List Msg → List Msg
collect m ms = m ∷ ms

xsend-init_cancel_example :
    (x' : Xsub) × (xsend collect (init_cancel (97 ∷ [])) mixed []
      ≡ some (
        x',
        if (refs (97 ∷ []) mixed.subscriptions.trie == 1) || mixed.verbose_unsubs
            then collect (init_cancel (97 ∷ [])) []
            else [],
      ))
    × (valid x'.subscriptions.trie ≡ true)
    × ((q : Bytes)
        → refs q x'.subscriptions.trie ≡ less q (97 ∷ []) (refs q mixed.subscriptions.trie))
xsend-init_cancel_example = xsend-init_cancel collect (97 ∷ []) mixed [] mixed-valid refl refl

xsend-init_cancel_one_example :
    (x' : Xsub) × (xsend collect (init_cancel (1 ∷ 98 ∷ [])) mixed []
      ≡ some (x', collect (init_cancel (1 ∷ 98 ∷ [])) []))
    × ((q : Bytes)
        → refs q x'.subscriptions.trie
          ≡ refs q mixed.subscriptions.trie + (if bytes_beq q (98 ∷ []) then 1 else 0))
unfolding refs
xsend-init_cancel_one_example =
    xsend-init_cancel_one collect (98 ∷ []) mixed [] mixed-valid (omega arith) refl

-- A fresh socket that subscribes to both.
abbrev both : Option (Xsub × List Msg)
both = elim (xsend collect (init_subscribe (97 ∷ [])) (new_xsub true false) []) [
  | none ↦ none
  | some (x, ms) ↦ psubscribe collect (b'b' ∷ b'*' ∷ []) x ms
]

both_lem : both ≡ some (mixed, init_subscribe [] ∷ init_subscribe (97 ∷ []) ∷ [])
unfolding xsend new_xsub is_subscribe init_subscribe with_flags add_prefix Trie.add psubscribe
    Patterns.add find_pattern compile num_patterns is_more
both_lem = refl

-- The same socket without the pattern, and two messages to read; only the second one matches.
abbrev plain : Xsub
plain = record mixed {
  subscriptions = record { trie = node 0 97 1 1 (sub (node 1 0 0 0 end) end); num_prefixes = 1 };
  pattern_subscriptions = [];
}

abbrev text_message : Bytes → Msg
text_message body = record { delimiter = false; flags = 0; body = body }

abbrev take_next : ℕ → List Msg → Option Msg × List Msg
take_next p [] = (none, [])
take_next p (m ∷ ms) = (some m, ms)

abbrev two_waiting : Incoming (List Msg)
two_waiting = record {
  message = none;
  more_recv = false;
  fq = record { pipes = 5 ∷ []; active = 1; current = 0; more = false };
  store = text_message (98 ∷ []) ∷ text_message (97 ∷ 99 ∷ []) ∷ [];
}

plain-valid : valid plain.subscriptions.trie ≡ true
unfolding valid
plain-valid = refl

second_taken : (xrecv take_next 5 plain two_waiting).0 ≡ got (text_message (97 ∷ 99 ∷ []))
unfolding xrecv xrecv_loop recvpipe recv_loop match Trie.check is_matching num_patterns skip_parts
    fetched is_more
second_taken = refl

xrecv-prefixes_example :
    (any_refs (prefixes (97 ∷ 99 ∷ [])) plain.subscriptions.trie ≡ true)
    × ((xrecv take_next 5 plain two_waiting).1.more_recv ≡ is_more (text_message (97 ∷ 99 ∷ [])))
unfolding xrecv xrecv_loop recvpipe recv_loop match Trie.check is_matching num_patterns skip_parts
    fetched is_more
xrecv-prefixes_example =
    xrecv-prefixes take_next 5 plain two_waiting (xrecv take_next 5 plain two_waiting).1
      (text_message (97 ∷ 99 ∷ [])) refl refl refl refl refl plain-valid refl
