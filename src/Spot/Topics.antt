-- ===== src/Spot/Topics.antt =====
-- The registry keeps one entry for each topic, and registering and unregistering change the entry of
-- their own topic only.
use serverlink.Prelude.{
  ◌+◌, ◌≡◌, refl, arith, none, some, List, [], ◌∷◌, Option-cases, inl, inr, ◌⊎◌, if◌then◌else◌,
  Bytes, bytes_eq, bytes_beq, bytes_beq_refl, bytes_beq_iff, find, insert, erase, IsMap,
  find-insert, find-erase, insert-IsMap, length,
}
use serverlink.Spot.Registry.{
  TopicLocation, TopicEntry, TopicRegistry, eexist, register, unregister, lookup, get_local_topics,
  get_remote_topics, topic_count, topics_where, is_local, is_remote,
}

abbrev pub entry : TopicLocation → Bytes → Bytes → TopicEntry
entry location topic endpoint = record {
  topic_id = topic;
  location = location;
  endpoint = endpoint;
}

register-new :
    (l : TopicLocation) (topic endpoint : Bytes) (r : TopicRegistry)
    → find topic r.topics ≡ none
    → register l topic endpoint r
      ≡ (none, record r { topics = insert topic (entry l topic endpoint) r.topics })
unfolding register
register-new l topic endpoint r h = rw (register, h) refl

register-old :
    (l : TopicLocation) (topic endpoint : Bytes) (r : TopicRegistry) (e : TopicEntry)
    → find topic r.topics ≡ some e
    → register l topic endpoint r ≡ (some eexist, r)
unfolding register
register-old l topic endpoint r e h = rw (register, h) refl

unregister-old :
    (topic : Bytes) (r : TopicRegistry) (e : TopicEntry)
    → find topic r.topics ≡ some e
    → unregister topic r ≡ (none, record r { topics = erase topic r.topics })
unfolding unregister
unregister-old topic r e h = rw (unregister, h) refl

-- After a registration a topic has an entry: the one it had before, with the error EEXIST, or else
-- the new one, with no error; and every other topic has the entry it had.
pub lookup-register :
    (l : TopicLocation) (topic endpoint j : Bytes) (r : TopicRegistry)
    → (e : TopicEntry) × (lookup j (register l topic endpoint r).1
        ≡ (if bytes_beq topic j then some e else lookup j r))
      × (((lookup topic r ≡ some e) × ((register l topic endpoint r).0 ≡ some eexist))
          ⊎ ((lookup topic r ≡ none)
              × (e ≡ entry l topic endpoint)
              × ((register l topic endpoint r).0 ≡ none)))
unfolding lookup
lookup-register l topic endpoint j r = elim (Option-cases (find topic r.topics)) [
  | inl h ↦
      let p = register-new l topic endpoint r h in
      (
        entry l topic endpoint,
        rw p (find-insert topic j (entry l topic endpoint) r.topics),
        inr (h, refl, rw p refl),
      )
  | inr (e, h) ↦
      let p = register-old l topic endpoint r e h in
      (e, rw p (kept topic j e r h), inl (h, rw p refl))
]
  where
    kept :
        (topic j : Bytes) (e : TopicEntry) (r : TopicRegistry)
        → find topic r.topics ≡ some e
        → find j r.topics ≡ (if bytes_beq topic j then some e else find j r.topics)
    kept topic j e r h = ground (arith, bytes_beq_iff topic j)

-- Unregistering a topic that was new when it was registered succeeds and gives every topic the entry
-- that it had before, in a registry that keeps one entry for each topic.
pub unregister-register :
    (l : TopicLocation) (topic endpoint j : Bytes) (r : TopicRegistry)
    → IsMap r.topics
    → lookup topic r ≡ none
    → ((unregister topic (register l topic endpoint r).1).0 ≡ none)
      × (lookup j (unregister topic (register l topic endpoint r).1).1 ≡ lookup j r)
unfolding lookup
unregister-register l topic endpoint j r m h =
    let e = entry l topic endpoint in
    let added = record r { topics = insert topic e r.topics } in
    rw (register-new l topic endpoint r h, unregister-old topic added e (found topic e r.topics))
      (
        refl,
        ground (
          arith,
          bytes_beq_iff topic j,
          find-erase topic j added.topics (insert-IsMap topic e r.topics m),
          find-insert topic j e r.topics,
        ),
      )
  where
    found :
        (topic : Bytes) (e : TopicEntry) (m : List (Bytes × TopicEntry))
        → find topic (insert topic e m) ≡ some e
    found topic e m = rw (find-insert topic topic e m, bytes_beq_refl topic) refl

split :
    (m : List (Bytes × TopicEntry))
    → length (topics_where is_local m) + length (topics_where is_remote m) ≡ length m
split [] = refl
split ((topic, e) ∷ m) = ground (arith, split m)

-- Each topic is listed as local or as remote, so the two lists have as many topics as the registry.
pub topic_count_lem :
    (r : TopicRegistry) → length (get_local_topics r) + length (get_remote_topics r) ≡ topic_count r
unfolding get_local_topics get_remote_topics topic_count
topic_count_lem r = split r.topics
