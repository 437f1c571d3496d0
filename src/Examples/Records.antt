-- ===== src/Examples/Records.antt =====
-- The statistics of two peers, a registry of topics, and subscriptions.
use serverlink.Prelude.{
  ◌≡◌, ◌≢◌, refl, false, [], ◌∷◌, arith, if◌then◌else◌, Bytes, bytes_eq, IsMap, contains, find,
}
use serverlink.Prelude.Int.{pos}
use serverlink.Monitor.{new_stats}
use serverlink.Monitor.Stats.{Stats, cleanup_stale_peers}
use serverlink.Monitor.Records.{cleanup_stale_peers-none}
use serverlink.Spot.Registry.{TopicRegistry, remote}
use serverlink.Spot.Topics.{entry}
use serverlink.Spot.Subscriptions.{
  Subscriber, SubscriptionManager, Subscriptions, subscriber_eq, subscriber_beq, add_subscription,
  get_subscribers, remove_all_subscriptions, matches_pattern, starts_with, star,
}
use serverlink.Spot.Subscriptions
use serverlink.Spot.Subscriptions.{remove_subscription, total_subscription_count}
use serverlink.Spot.Removal.{IsValid, IsUnique, AreUnique, get_subscribers-remove_all_subscriptions}

abbrev alice : Bytes
alice = 97 ∷ []

abbrev bob : Bytes
bob = 98 ∷ []

abbrev peers : Stats
peers = (alice, new_stats) ∷ (bob, new_stats) ∷ []

peers-IsMap : IsMap peers
unfolding IsMap find
peers-IsMap = (refl, (refl, tt))

alice-bob : alice ≢ bob
alice-bob e = ground arith

cleanup_stale_peers-none_example : cleanup_stale_peers (pos 60) peers ≡ peers
cleanup_stale_peers-none_example = cleanup_stale_peers-none (pos 60) peers

abbrev topics : TopicRegistry
topics = record { topics = (alice, entry remote alice (1 ∷ [])) ∷ []; local_topic_counter = 0 }

topics-IsMap : IsMap topics.topics
unfolding IsMap find
topics-IsMap = (refl, tt)

abbrev first : Subscriber
first = Subscriptions.local 1

abbrev second : Subscriber
second = Subscriptions.remote (9 ∷ [])

abbrev manager : SubscriptionManager
manager = record {
  exact_subscriptions = (alice, first ∷ second ∷ []) ∷ (bob, second ∷ []) ∷ [];
  pattern_subscriptions = [];
}

manager-IsValid : IsValid manager.exact_subscriptions
unfolding IsMap find IsUnique AreUnique contains
manager-IsValid = record {
  keys = (refl, (refl, tt));
  unique = ((refl, (refl, tt)), ((refl, tt), tt));
}

get_subscribers-remove_all_subscriptions_example :
    contains (get_subscribers alice (remove_all_subscriptions second manager)) first ≡ (
      if subscriber_beq second first then false else contains (get_subscribers alice manager) first)
get_subscribers-remove_all_subscriptions_example =
    get_subscribers-remove_all_subscriptions second first alice manager manager-IsValid
