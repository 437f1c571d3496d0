-- ===== src/Xsub.antt =====
-- src/core/xsub.cpp: a socket that subscribes. It keeps the prefixes and the patterns, passes them on
-- upstream, and takes only the messages that match. What `_dist` does with a message is a parameter, and
-- `none` is a failed assertion in the trie.
pub mod Filter
pub mod Upstream
pub mod Receive
use serverlink.Prelude.{
  ℕ, ◌+◌, ◌-◌, ◌%◌, ◌^◌, ◌==◌, ltb, Bool, true, false, not, ◌&&◌, ◌||◌, eq_bool, if◌then◌else◌,
  Option, none, some, List, [], ◌∷◌, Bytes, length,
}
use serverlink.Msg.{Msg, is_more, is_subscribe, is_cancel, with_flags}
use serverlink.Patterns.{PatternTrie, num_patterns}
use serverlink.Patterns
use serverlink.Trie.Tables.{Trie}
use serverlink.Trie.{Outcome, done, broken, new_trie}
use serverlink.Trie

-- `trie_with_size_t`; the number is a `uint32_t`.
pub record TrieWithSize : Type 0 where
  pub trie : Trie
  pub num_prefixes : ℕ

abbrev pub sized : (ℕ → ℕ) → ℕ → Outcome → Option (Bool × TrieWithSize)
sized f n broken = none
sized f n (done b t) = some (b, record { trie = t; num_prefixes = if b then f n else n })

unfoldable pub add_prefix : Bytes → TrieWithSize → Option (Bool × TrieWithSize)
add_prefix p t = sized (λ n. (n + 1) % 2 ^ 32) t.num_prefixes (Trie.add p t.trie)

unfoldable pub rm_prefix : Bytes → TrieWithSize → Option (Bool × TrieWithSize)
rm_prefix p t = sized (λ n. (n + (2 ^ 32 - 1)) % 2 ^ 32) t.num_prefixes (Trie.rm p t.trie)

pub record Xsub : Type 0 where
  pub subscriptions : TrieWithSize
  pub pattern_subscriptions : PatternTrie
  pub verbose_unsubs : Bool
  pub more_send : Bool
  pub process_subscribe : Bool
  pub only_first_subscribe : Bool
  pub filter : Bool
  pub invert_matching : Bool

unfoldable pub new_xsub : Bool → Bool → Xsub
new_xsub filter invert = record {
  subscriptions = record { trie = new_trie; num_prefixes = 0 };
  pattern_subscriptions = [];
  verbose_unsubs = false;
  more_send = false;
  process_subscribe = false;
  only_first_subscribe = false;
  filter = filter;
  invert_matching = invert;
}

unfoldable pub init_subscribe : Bytes → Msg
init_subscribe topic = with_flags 12 topic

unfoldable pub init_cancel : Bytes → Msg
init_cancel topic = with_flags 16 topic

-- The topic behind the first byte of a message that is no command.
abbrev pub topic_of : Bool → Bytes → Bytes
topic_of true body = body
topic_of false [] = []
topic_of false (c ∷ cs) = cs

abbrev pub starts_with_byte : ℕ → Bytes → Bool
starts_with_byte b [] = false
starts_with_byte b (c ∷ cs) = c == b

module _ {D : Type 0} (send_to_all : Msg → D → D) where
  abbrev pub sent_if : Bool → Msg → Xsub → D → Option (Xsub × D)
  sent_if b m x d = some (x, if b then send_to_all m d else d)

  abbrev pub after_subscribe : Msg → Xsub → D → Option (Bool × TrieWithSize) → Option (Xsub × D)
  after_subscribe m x d none = none
  after_subscribe m x d (some (new, t)) =
      sent_if true m (record x { subscriptions = t; process_subscribe = true }) d

  abbrev pub after_cancel : Msg → Xsub → D → Option (Bool × TrieWithSize) → Option (Xsub × D)
  after_cancel m x d none = none
  after_cancel m x d (some (gone, t)) =
      sent_if (gone || x.verbose_unsubs) m
        (record x { subscriptions = t; process_subscribe = true }) d

  -- A subscription, a cancellation, or a message of the user.
  abbrev pub xsend_part : Msg → Xsub → D → Option (Xsub × D)
  xsend_part m x d =
      if is_subscribe m || starts_with_byte 1 m.body
      then after_subscribe m x d (add_prefix (topic_of (is_subscribe m) m.body) x.subscriptions)
      else if is_cancel m || starts_with_byte 0 m.body
      then after_cancel m x d (rm_prefix (topic_of (is_cancel m) m.body) x.subscriptions)
      else sent_if true m x d

  unfoldable pub xsend : Msg → Xsub → D → Option (Xsub × D)
  xsend m x d =
      let first_part = not x.more_send in
      let x' = record x {
        more_send = is_more m;
        process_subscribe = if first_part then not x.only_first_subscribe else x.process_subscribe;
      } in
      if not first_part && not x'.process_subscribe then sent_if true m x' d else xsend_part m x' d

  abbrev pub announce : Msg → Xsub → D → Option (Bool × TrieWithSize) → Option (Xsub × D)
  announce m x d none = none
  announce m x d (some (b, t)) = sent_if b m (record x { subscriptions = t }) d

  -- `SL_PSUBSCRIBE`: the first pattern subscribes to the empty prefix.
  unfoldable pub psubscribe : Bytes → Xsub → D → Option (Xsub × D)
  psubscribe pattern x d =
      let r = Patterns.add pattern x.pattern_subscriptions in
      let x' = record x { pattern_subscriptions = r.1 } in
      if r.0 && (num_patterns r.1 == 1)
      then announce (init_subscribe []) x' d (add_prefix [] x.subscriptions)
      else some (x', d)

  -- `SL_PUNSUBSCRIBE`: with the last pattern the empty prefix goes.
  unfoldable pub punsubscribe : Bytes → Xsub → D → Option (Xsub × D)
  punsubscribe pattern x d =
      let r = Patterns.rm pattern x.pattern_subscriptions in
      let x' = record x { pattern_subscriptions = r.1 } in
      if r.0 && (num_patterns r.1 == 0)
      then announce (init_cancel []) x' d (rm_prefix [] x.subscriptions)
      else some (x', d)

-- Whether a text is taken, where the trie says whether a prefix matches.
unfoldable pub is_matching : Bool → Bytes → Xsub → Bool
is_matching prefix_match text x =
    let has_patterns = ltb 0 (num_patterns x.pattern_subscriptions) in
    let pattern_match = has_patterns && Patterns.check text x.pattern_subscriptions in
    if has_patterns && prefix_match
    then (if ltb 1 x.subscriptions.num_prefixes
        then prefix_match || pattern_match
        else pattern_match)
    else prefix_match || pattern_match

unfoldable pub match : Bytes → Xsub → Option Bool
match text x = elim (Trie.check text x.subscriptions.trie) [
  | none ↦ none
  | some p ↦ some (not (eq_bool (is_matching p text x) x.invert_matching))
]
