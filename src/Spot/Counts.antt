-- ===== src/Spot/Counts.antt =====
-- How the operations of the subscription manager change the number of subscriptions, and that
-- removing a subscriber undoes adding it.
use serverlink.Prelude.{
  ◌+◌, ◌≡◌, refl, ap, ◌∙◌, arith, true, false, Option, none, some, List, [], ◌∷◌, ◌++◌, Bool-cases,
  inl, inr, if◌then◌else◌, Bytes, bytes_eq, bytes_beq, bytes_beq_refl, bytes_beq_iff, find, insert,
  erase, IsMap, find-insert, find-erase, insert-IsMap, contains, remove_first, length,
  length-append,
}
use serverlink.Spot.Subscriptions.{
  Subscriber, or_empty, is_empty, Subscriptions, SubscriptionManager, subscriber_eq, subscribers_of,
  add, remove, clean_up, add_subscription, remove_subscription, get_subscribers,
  total_subscription_count, count,
}
use serverlink.Spot.Matching.{contains_self, remove_first-append}
use serverlink.Spot.Removal.{is_empty-nil}

count-insert :
    (k : Bytes) (v : List Subscriber) (m : Subscriptions)
    → count (insert k v m) + length (subscribers_of k m) ≡ count m + length v
unfolding insert find
count-insert k v [] = omega arith
count-insert k v ((j, w) ∷ m) = ground (arith, count-insert k v m)

count-erase :
    (k : Bytes) (m : Subscriptions) → count (erase k m) + length (subscribers_of k m) ≡ count m
unfolding erase find
count-erase k [] = omega arith
count-erase k ((j, w) ∷ m) = ground (arith, count-erase k m)

length-remove_first :
    (xs : List Subscriber) (x : Subscriber)
    → contains xs x ≡ true
    → length (remove_first xs x) + 1 ≡ length xs
unfolding contains remove_first
length-remove_first [] x h = cc
length-remove_first (y ∷ xs) x h = ground (arith, length-remove_first xs x)

-- Adding a subscription makes one more of them, unless the subscriber has it already: then there are
-- as many as before.
pub total_subscription_count-add_subscription :
    (topic : Bytes) (x : Subscriber) (s : SubscriptionManager)
    → total_subscription_count (add_subscription topic x s).1 ≡ (
        if contains (get_subscribers topic s) x
        then total_subscription_count s
        else total_subscription_count s + 1)
unfolding total_subscription_count add_subscription add get_subscribers
total_subscription_count-add_subscription topic x s =
    let m = s.exact_subscriptions in
    let old = subscribers_of topic m in
    elim (Bool-cases (contains old x)) [
      | inl h ↦ rw h (omega (arith, count-insert topic old m))
      | inr h ↦
          rw h (omega (arith, count-insert topic (old ++ x ∷ []) m, length-append old (x ∷ [])))
    ]

remove-found :
    (k : Bytes) (x : Subscriber) (m : Subscriptions) (v : List Subscriber)
    → find k m ≡ some v
    → contains v x ≡ true
    → remove k x m ≡ (none, clean_up k (remove_first v x) m)
unfolding remove
remove-found k x m v h c = rw (remove, h, c) refl

count-clean_up :
    (k : Bytes) (v : List Subscriber) (m : Subscriptions)
    → count (clean_up k v m) + length (subscribers_of k m) ≡ count m + length v
count-clean_up k v m = elim (Bool-cases (is_empty v)) [
  | inl e ↦ rw e (rw (is_empty-nil v e) (omega (arith, count-erase k m)))
  | inr e ↦ rw e (count-insert k v m)
]

subscribed :
    (o : Option (List Subscriber)) (x : Subscriber)
    → contains (or_empty o) x ≡ true
    → (v : List Subscriber) × (o ≡ some v) × (contains v x ≡ true)
unfolding contains
subscribed none x h = cc
subscribed (some v) x h = (v, refl, h)

-- Removing a subscriber from a topic that it subscribed to succeeds and makes one subscription less.
pub total_subscription_count-remove_subscription :
    (topic : Bytes) (x : Subscriber) (s : SubscriptionManager)
    → contains (get_subscribers topic s) x ≡ true
    → ((remove_subscription topic x s).0 ≡ none)
      × (total_subscription_count (remove_subscription topic x s).1 + 1
          ≡ total_subscription_count s)
unfolding total_subscription_count remove_subscription get_subscribers
total_subscription_count-remove_subscription topic x s c =
    let m = s.exact_subscriptions in
    let (v, e, h) = subscribed (find topic m) x c in
    rw (remove-found topic x m v e h) (
      refl,
      omega (
        arith,
        count-clean_up topic (remove_first v x) m,
        length-remove_first v x h,
        ap (λ o. length (or_empty o)) e,
      ),
    )

subscribers-clean_up :
    (k j : Bytes) (v : List Subscriber) (m : Subscriptions)
    → IsMap m
    → subscribers_of j (clean_up k v m) ≡ (if bytes_beq k j then v else subscribers_of j m)
subscribers-clean_up k j v m h =
    ground (arith, is_empty-nil v, find-erase k j m h, find-insert k j v m)

restored :
    (k j : Bytes) (v : List Subscriber) (m : Subscriptions)
    → (if bytes_beq k j then subscribers_of k m else subscribers_of j (insert k v m))
      ≡ subscribers_of j m
restored k j v m = ground (arith, bytes_beq_iff k j, find-insert k j v m)

found : (k : Bytes) (v : List Subscriber) (m : Subscriptions) → find k (insert k v m) ≡ some v
found k v m = rw (find-insert k k v m, bytes_beq_refl k) refl

-- Adding a subscriber to a topic that it had not subscribed to, and removing it again, succeeds and
-- leaves every topic with the subscribers that it had, in their order, where each topic has one entry.
pub remove_subscription-add_subscription :
    (topic j : Bytes) (x : Subscriber) (s : SubscriptionManager)
    → IsMap s.exact_subscriptions
    → contains (get_subscribers topic s) x ≡ false
    → ((remove_subscription topic x (add_subscription topic x s).1).0 ≡ none)
      × (get_subscribers j (remove_subscription topic x (add_subscription topic x s).1).1
          ≡ get_subscribers j s)
unfolding get_subscribers remove_subscription add_subscription add
remove_subscription-add_subscription topic j x s h c =
    let m = s.exact_subscriptions in
    let old = subscribers_of topic m in
    let new = old ++ x ∷ [] in
    rw
      (
        c,
        remove-found topic x (insert topic new m) new (found topic new m) (contains_self old x),
        remove_first-append old x c,
      )
      (
        refl,
        subscribers-clean_up topic j old (insert topic new m) (insert-IsMap topic new m h)
            ∙ restored topic j new m,
      )
