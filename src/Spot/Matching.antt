-- ===== src/Spot/Matching.antt =====
-- Who is subscribed after the operations of the subscription manager, and which topics a pattern
-- matches.
use serverlink.Prelude.{
  ◌≡◌, refl, arith, true, false, none, some, List, [], ◌∷◌, ◌++◌, Bool-cases, inl, inr,
  if◌then◌else◌, Bytes, bytes_eq, bytes_beq_refl, insert, find-insert, contains, remove_first,
  beq_refl,
}
use serverlink.Spot.Registry.{eexist}
use serverlink.Spot.Subscriptions.{
  Subscriber, Subscriptions, SubscriptionManager, subscriber_eq, subscribers_of, add,
  add_subscription, get_subscribers, star, has_star, before_star, starts_with, matches_pattern,
}

contains-append :
    (xs ys : List Subscriber) (x : Subscriber)
    → contains (xs ++ ys) x ≡ (if contains xs x then true else contains ys x)
unfolding contains
contains-append [] ys x = refl
contains-append (y ∷ xs) ys x = ground (arith, contains-append xs ys x)

pub contains_self : (xs : List Subscriber) (x : Subscriber) → contains (xs ++ x ∷ []) x ≡ true
unfolding contains
contains_self [] x = rw (beq_refl x) refl
contains_self (y ∷ xs) x = ground (arith, contains_self xs x)

pub remove_first-append :
    (xs : List Subscriber) (x : Subscriber)
    → contains xs x ≡ false
    → remove_first (xs ++ x ∷ []) x ≡ xs
unfolding contains remove_first
remove_first-append [] x h = rw (beq_refl x) refl
remove_first-append (y ∷ xs) x h = ground (arith, remove_first-append xs x)

pub subscribers-insert :
    (k : Bytes) (v : List Subscriber) (m : Subscriptions) → subscribers_of k (insert k v m) ≡ v
subscribers-insert k v m = rw (find-insert k k v m, bytes_beq_refl k) refl

-- A subscriber that was added to a topic is among its subscribers, whether it was there before, which
-- is the error EEXIST, or not.
pub get_subscribers-add_subscription :
    (topic : Bytes) (x : Subscriber) (s : SubscriptionManager)
    → (contains (get_subscribers topic (add_subscription topic x s).1) x ≡ true)
      × ((add_subscription topic x s).0
          ≡ (if contains (get_subscribers topic s) x then some eexist else none))
unfolding get_subscribers add_subscription add
get_subscribers-add_subscription topic x s =
    elim (Bool-cases (contains (subscribers_of topic s.exact_subscriptions) x)) [
      | inl h ↦ rw h (
          rw
            (subscribers-insert topic (subscribers_of topic s.exact_subscriptions)
              s.exact_subscriptions)
            (h, refl))
      | inr h ↦ rw h (
          rw
            (subscribers-insert topic (subscribers_of topic s.exact_subscriptions ++ x ∷ [])
              s.exact_subscriptions)
            (contains_self (subscribers_of topic s.exact_subscriptions) x, refl))
    ]

prefix-before : (p q : Bytes) → has_star p ≡ false → before_star (p ++ star ∷ q) ≡ p
prefix-before [] q h = refl
prefix-before (c ∷ p) q h = ground (arith, prefix-before p q)

starred : (p q : Bytes) → has_star (p ++ star ∷ q) ≡ true
starred [] q = refl
starred (c ∷ p) q = ground (arith, starred p q)

-- A pattern matches the topics that start with what stands before its first star, whatever follows
-- the star.
pub matches_pattern-prefix :
    (p q topic : Bytes)
    → has_star p ≡ false
    → matches_pattern (p ++ star ∷ q) topic ≡ starts_with p topic
unfolding matches_pattern
matches_pattern-prefix [] q topic h = ground arith
matches_pattern-prefix (c ∷ p) q topic h =
    rw (starred (c ∷ p) q, prefix-before (c ∷ p) q h) (ground arith)
