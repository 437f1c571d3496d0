-- ===== src/Spot/Registry.antt =====
-- src/spot/topic_registry.cpp: which endpoint serves a topic. The lock makes each operation one
-- step; `errno` and the result -1 are an error, and `std::nullopt` is `none`.
use serverlink.Prelude.{
  ℕ, ◌+◌, ◌%◌, ◌^◌, Bool, true, false, if◌then◌else◌, Option, none, some, List, [], ◌∷◌, ◌++◌,
  Bytes, bytes_eq, find, insert, erase, map, length,
}

pub data TopicLocation : Type 0 where
  local : TopicLocation
  remote : TopicLocation

pub record TopicEntry : Type 0 where
  pub topic_id : Bytes
  pub location : TopicLocation
  pub endpoint : Bytes

pub record TopicRegistry : Type 0 where
  pub topics : List (Bytes × TopicEntry)
  pub local_topic_counter : ℕ

pub data Errno : Type 0 where
  eexist : Errno
  enoent : Errno
  einval : Errno

-- `none` is the result 0.
abbrev pub Result : Type 0 → Type 0
Result S = Option Errno × S

unfoldable pub new_registry : TopicRegistry
new_registry = record { topics = []; local_topic_counter = 0 }

-- "inproc://spot-"
abbrev pub endpoint_prefix : Bytes
endpoint_prefix = 105 ∷ 110 ∷ 112 ∷ 114 ∷ 111 ∷ 99 ∷ 58 ∷ 47 ∷ 47 ∷ 115 ∷ 112 ∷ 111 ∷ 116 ∷ 45 ∷ []

-- Adds an entry unless the topic has one.
unfoldable pub register : TopicLocation → Bytes → Bytes → TopicRegistry → Result TopicRegistry
register location topic endpoint r = elim (find topic r.topics) [
  | some old ↦ (some eexist, r)
  | none ↦ (
    none,
    record r {
      topics =
          insert topic (record { topic_id = topic; location = location; endpoint = endpoint })
            r.topics;
    },
  )
]

-- The printing of a number on the stream is the library's.
module _ (print : ℕ → Bytes) where
  -- `register_local (topic_id)`; the counter is a `uint64_t`.
  unfoldable pub register_local_new : Bytes → TopicRegistry → Result TopicRegistry
  register_local_new topic r = elim (find topic r.topics) [
    | some old ↦ (some eexist, r)
    | none ↦ (
      none,
      record r {
        topics =
            insert topic
              (record {
                topic_id = topic;
                location = local;
                endpoint = endpoint_prefix ++ print r.local_topic_counter;
              })
              r.topics;
        local_topic_counter = (r.local_topic_counter + 1) % 2 ^ 64;
      },
    )
  ]

unfoldable pub register_local : Bytes → Bytes → TopicRegistry → Result TopicRegistry
register_local = register local

unfoldable pub register_remote : Bytes → Bytes → TopicRegistry → Result TopicRegistry
register_remote = register remote

unfoldable pub unregister : Bytes → TopicRegistry → Result TopicRegistry
unregister topic r = elim (find topic r.topics) [
  | none ↦ (some enoent, r)
  | some old ↦ (none, record r { topics = erase topic r.topics })
]

unfoldable pub lookup : Bytes → TopicRegistry → Option TopicEntry
lookup topic r = find topic r.topics

unfoldable pub has_topic : Bytes → TopicRegistry → Bool
has_topic topic r = elim (find topic r.topics) [ none ↦ false | some e ↦ true ]

abbrev pub is_local : TopicLocation → Bool
is_local local = true
is_local remote = false

abbrev pub is_remote : TopicLocation → Bool
is_remote local = false
is_remote remote = true

abbrev pub topics_where : (TopicLocation → Bool) → List (Bytes × TopicEntry) → List Bytes
topics_where f [] = []
topics_where f ((topic, e) ∷ m) =
    if f e.location then topic ∷ topics_where f m else topics_where f m

unfoldable pub get_all_topics : TopicRegistry → List Bytes
get_all_topics r = map (λ p. p.0) r.topics

unfoldable pub get_local_topics : TopicRegistry → List Bytes
get_local_topics r = topics_where is_local r.topics

unfoldable pub get_remote_topics : TopicRegistry → List Bytes
get_remote_topics r = topics_where is_remote r.topics

unfoldable pub topic_count : TopicRegistry → ℕ
topic_count r = length r.topics
