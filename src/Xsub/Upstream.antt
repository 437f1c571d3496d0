-- ===== src/Xsub/Upstream.antt =====
-- What a subscriber passes on upstream (src/core/xsub.cpp).
use serverlink.Prelude.{
  ◌+◌, ◌-◌, ◌<◌, ◌%◌, ◌^◌, ◌≡◌, arith, ◌==◌, Bool, true, false, ◌||◌, if◌then◌else◌, some, ◌∷◌,
  Bytes, bytes_beq,
}
use serverlink.Msg.{Msg, is_more, is_subscribe, is_cancel, with_flags}
use serverlink.Trie.Cuts.{valid}
use serverlink.Trie.Tables.{Trie}
use serverlink.Trie.Refs.{refs}
use serverlink.Trie.Growth.{add_lem}
use serverlink.Trie.Removal.{less, rm_lem}
use serverlink.Xsub.{
  TrieWithSize, Xsub, add_prefix, rm_prefix, init_cancel, starts_with_byte, xsend,
}

-- The socket after a cancellation or a subscription, with its new prefixes.
abbrev with_prefixes : Xsub → TrieWithSize → Xsub
with_prefixes x t = record x { more_send = false; process_subscribe = true; subscriptions = t }

abbrev smaller : TrieWithSize → Trie → Bool → TrieWithSize
smaller s t b = record {
  trie = t;
  num_prefixes = if b then (s.num_prefixes + (2 ^ 32 - 1)) % 2 ^ 32 else s.num_prefixes;
}

abbrev larger : TrieWithSize → Trie → Bool → TrieWithSize
larger s t b = record {
  trie = t;
  num_prefixes = if b then (s.num_prefixes + 1) % 2 ^ 32 else s.num_prefixes;
}

module _ {D : Type 0} (send_to_all : Msg → D → D) where
  -- At the start of a message, a cancellation of a topic that does not begin with the byte 1 takes the topic out
  -- of the well-formed trie of a socket once, and is passed on if it was the last one or if all are
  -- asked for.
  pub xsend-init_cancel :
      (p : Bytes) (x : Xsub) (d : D)
      → valid x.subscriptions.trie ≡ true
      → x.more_send ≡ false
      → starts_with_byte 1 p ≡ false
      → (x' : Xsub) × (xsend send_to_all (init_cancel p) x d
          ≡ some (
            x',
            if (refs p x.subscriptions.trie == 1) || x.verbose_unsubs
                then send_to_all (init_cancel p) d
                else d,
          ))
        × (valid x'.subscriptions.trie ≡ true)
        × ((q : Bytes) → refs q x'.subscriptions.trie ≡ less q p (refs q x.subscriptions.trie))
  unfolding xsend rm_prefix init_cancel is_subscribe is_cancel is_more with_flags
  xsend-init_cancel p x d v s one =
      let (t, eq, ok, f) = rm_lem p x.subscriptions.trie v in
      (
        with_prefixes x (smaller x.subscriptions t (refs p x.subscriptions.trie == 1)),
        ground (arith, eq),
        ok,
        f,
      )

  -- A cancellation of a topic that begins with the byte 1 is taken for a subscription: the rest of the topic
  -- counts once more, in a well-formed trie in which it counts less than 2^32 - 1 times, and the
  -- cancellation is passed on.
  pub xsend-init_cancel_one :
      (p : Bytes) (x : Xsub) (d : D)
      → valid x.subscriptions.trie ≡ true
      → refs p x.subscriptions.trie + 1 < 2 ^ 32
      → x.more_send ≡ false
      → (x' : Xsub) × (xsend send_to_all (init_cancel (1 ∷ p)) x d
          ≡ some (x', send_to_all (init_cancel (1 ∷ p)) d))
        × ((q : Bytes)
            → refs q x'.subscriptions.trie
              ≡ refs q x.subscriptions.trie + (if bytes_beq q p then 1 else 0))
  unfolding xsend add_prefix init_cancel is_subscribe is_cancel is_more with_flags
  xsend-init_cancel_one p x d v h s =
      let (t, eq, ok, full, f) = add_lem p x.subscriptions.trie v h in
      (
        with_prefixes x (larger x.subscriptions t (refs p x.subscriptions.trie == 0)),
        ground (arith, eq),
        f,
      )
