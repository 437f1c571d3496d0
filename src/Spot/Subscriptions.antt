-- ===== src/Spot/Subscriptions.antt =====
-- src/spot/subscription_manager.cpp: who subscribed to a topic or to a pattern of topics. The lock
-- makes each operation one step; a socket pointer is a number.
use serverlink.Prelude.{
  ℕ, ◌+◌, ◌==◌, Bool, true, false, not, if◌then◌else◌, Option, none, some, List, [], ◌∷◌, ◌++◌, ◌≡◌,
  ◌↔◌, Bytes, Eq, bytes_eq, bytes_beq, bytes_beq_iff, find, insert, erase, contains, remove_first,
  length, arith, ==_iff,
}
use serverlink.Spot.Registry.{eexist, enoent, einval, Result}

-- `operator==` compares the socket of local subscribers and the endpoint of remote ones only, so a
-- subscriber is what it compares.
pub data Subscriber : Type 0 where
  local : ℕ → Subscriber
  remote : Bytes → Subscriber

abbrev pub subscriber_beq : Subscriber → Subscriber → Bool
subscriber_beq (local a) (local b) = a == b
subscriber_beq (local a) (remote b) = false
subscriber_beq (remote a) (local b) = false
subscriber_beq (remote a) (remote b) = bytes_beq a b

pub subscriber_beq_iff : (a b : Subscriber) → (subscriber_beq a b ≡ true) ↔ (a ≡ b)
subscriber_beq_iff (local a) (local b) = ground (arith, ==_iff a b)
subscriber_beq_iff (local a) (remote b) = ground arith
subscriber_beq_iff (remote a) (local b) = ground arith
subscriber_beq_iff (remote a) (remote b) = ground (arith, bytes_beq_iff a b)

instance abbrev pub subscriber_eq : Eq Subscriber
subscriber_eq = record { beq = subscriber_beq; beq_iff = subscriber_beq_iff }

abbrev pub Subscriptions : Type 0
Subscriptions = List (Bytes × List Subscriber)

pub record SubscriptionManager : Type 0 where
  pub exact_subscriptions : Subscriptions
  pub pattern_subscriptions : Subscriptions

unfoldable pub new_manager : SubscriptionManager
new_manager = record { exact_subscriptions = []; pattern_subscriptions = [] }

-- `operator[]` makes an empty entry for a key that has none.
abbrev pub or_empty : Option (List Subscriber) → List Subscriber
or_empty none = []
or_empty (some subscribers) = subscribers

abbrev pub subscribers_of : Bytes → Subscriptions → List Subscriber
subscribers_of key m = or_empty (find key m)

abbrev pub is_empty : List Subscriber → Bool
is_empty [] = true
is_empty (x ∷ xs) = false

-- What adding does to either of the two maps.
unfoldable pub add : Bytes → Subscriber → Subscriptions → Result Subscriptions
add key subscriber m =
    let subscribers = subscribers_of key m in
    if contains subscribers subscriber
    then (some eexist, insert key subscribers m)
    else (none, insert key (subscribers ++ subscriber ∷ []) m)

-- Stores what is left of an entry, and drops the entry when nothing is.
abbrev pub clean_up : Bytes → List Subscriber → Subscriptions → Subscriptions
clean_up key subscribers m = if is_empty subscribers then erase key m else insert key subscribers m

-- What removing does to either of the two maps.
unfoldable pub remove : Bytes → Subscriber → Subscriptions → Result Subscriptions
remove key subscriber m = elim (find key m) [
  | none ↦ (some enoent, m)
  | some subscribers ↦
      if contains subscribers subscriber
      then (none, clean_up key (remove_first subscribers subscriber) m)
      else (some enoent, m)
]

-- The loop of `remove_all_subscriptions` over either of the two maps.
unfoldable pub remove_all : Subscriber → Subscriptions → Subscriptions
remove_all subscriber [] = []
remove_all subscriber ((key, subscribers) ∷ m) =
    let left = remove_first subscribers subscriber in
    let rest = remove_all subscriber m in if is_empty left then rest else (key, left) ∷ rest

abbrev pub with_exact : SubscriptionManager → Result Subscriptions → Result SubscriptionManager
with_exact s (result, m) = (result, record s { exact_subscriptions = m })

abbrev pub with_pattern : SubscriptionManager → Result Subscriptions → Result SubscriptionManager
with_pattern s (result, m) = (result, record s { pattern_subscriptions = m })

unfoldable pub add_subscription :
    Bytes → Subscriber → SubscriptionManager → Result SubscriptionManager
add_subscription topic subscriber s = with_exact s (add topic subscriber s.exact_subscriptions)

unfoldable pub remove_subscription :
    Bytes → Subscriber → SubscriptionManager → Result SubscriptionManager
remove_subscription topic subscriber s =
    with_exact s (remove topic subscriber s.exact_subscriptions)

unfoldable pub remove_all_subscriptions : Subscriber → SubscriptionManager → SubscriptionManager
remove_all_subscriptions subscriber s = record {
  exact_subscriptions = remove_all subscriber s.exact_subscriptions;
  pattern_subscriptions = remove_all subscriber s.pattern_subscriptions;
}

unfoldable pub add_pattern_subscription :
    Bytes → Subscriber → SubscriptionManager → Result SubscriptionManager
add_pattern_subscription pattern (remote endpoint) s = (some einval, s)
add_pattern_subscription pattern (local socket) s =
    with_pattern s (add pattern (local socket) s.pattern_subscriptions)

unfoldable pub remove_pattern_subscription :
    Bytes → Subscriber → SubscriptionManager → Result SubscriptionManager
remove_pattern_subscription pattern subscriber s =
    with_pattern s (remove pattern subscriber s.pattern_subscriptions)

unfoldable pub get_subscribers : Bytes → SubscriptionManager → List Subscriber
get_subscribers topic s = subscribers_of topic s.exact_subscriptions

unfoldable pub get_subscriber_count : Bytes → SubscriptionManager → ℕ
get_subscriber_count topic s = elim (find topic s.exact_subscriptions) [
  | none ↦ 0
  | some subscribers ↦ length subscribers
]

-- The character `*`.
abbrev pub star : ℕ
star = 42

-- `pattern.find ('*')`
abbrev pub has_star : Bytes → Bool
has_star [] = false
has_star (c ∷ cs) = if c == star then true else has_star cs

-- `pattern.substr (0, wildcard_pos)`
abbrev pub before_star : Bytes → Bytes
before_star [] = []
before_star (c ∷ cs) = if c == star then [] else c ∷ before_star cs

-- `topic_id.compare (0, prefix.size (), prefix) == 0`
abbrev pub starts_with : Bytes → Bytes → Bool
starts_with [] topic = true
starts_with (c ∷ cs) [] = false
starts_with (c ∷ cs) (t ∷ ts) = if c == t then starts_with cs ts else false

unfoldable pub matches_pattern : Bytes → Bytes → Bool
matches_pattern pattern topic =
    if not (has_star pattern)
    then bytes_beq pattern topic
    else if bytes_beq pattern (star ∷ [])
    then true
    else starts_with (before_star pattern) topic

abbrev matched_in : Bytes → Subscriptions → List Subscriber
matched_in topic [] = []
matched_in topic ((pattern, subscribers) ∷ m) =
    let rest = matched_in topic m in
    if matches_pattern pattern topic then subscribers ++ rest else rest

unfoldable pub get_pattern_matched_subscribers : Bytes → SubscriptionManager → List Subscriber
get_pattern_matched_subscribers topic s = matched_in topic s.pattern_subscriptions

abbrev keys_with : Subscriber → Subscriptions → List Bytes
keys_with subscriber [] = []
keys_with subscriber ((key, subscribers) ∷ m) =
    let rest = keys_with subscriber m in
    if contains subscribers subscriber then key ∷ rest else rest

unfoldable pub get_subscribed_topics : Subscriber → SubscriptionManager → List Bytes
get_subscribed_topics subscriber s = keys_with subscriber s.exact_subscriptions

abbrev pub count : Subscriptions → ℕ
count [] = 0
count ((key, subscribers) ∷ m) = length subscribers + count m

unfoldable pub total_subscription_count : SubscriptionManager → ℕ
total_subscription_count s = count s.exact_subscriptions + count s.pattern_subscriptions
