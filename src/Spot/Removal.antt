-- ===== src/Spot/Removal.antt =====
-- What removing a subscriber leaves in the subscription manager.
use serverlink.Prelude.{
  ◌≡◌, refl, arith, true, false, List, [], ◌∷◌, ◌++◌, Bool-cases, inl, inr, if◌then◌else◌, Bytes,
  bytes_eq, bytes_beq_iff, find, insert, erase, IsMap, insert-IsMap, contains, remove_first,
}
use serverlink.Spot.Subscriptions.{
  Subscriber, Subscriptions, SubscriptionManager, subscriber_eq, subscriber_beq, subscriber_beq_iff,
  subscribers_of, add, remove_all, is_empty, add_subscription, remove_all_subscriptions,
  get_subscribers,
}

-- No subscriber stands twice in a list.
unfoldable pub IsUnique : List Subscriber → Type 0
IsUnique [] = Unit
IsUnique (x ∷ xs) = (contains xs x ≡ false) × IsUnique xs

unfoldable pub AreUnique : Subscriptions → Type 0
AreUnique [] = Unit
AreUnique ((key, subscribers) ∷ m) = IsUnique subscribers × AreUnique m

-- One entry for each topic, and no subscriber twice in it.
pub record IsValid (m : Subscriptions) : Type 0 where
  pub keys : IsMap m
  pub unique : AreUnique m

contains-remove_first :
    (xs : List Subscriber) (x y : Subscriber)
    → IsUnique xs
    → contains (remove_first xs x) y ≡ (if subscriber_beq x y then false else contains xs y)
unfolding contains remove_first IsUnique
contains-remove_first [] x y h = ground arith
contains-remove_first (z ∷ xs) x y h = ground (
  arith,
  contains-remove_first xs x y h.1,
  subscriber_beq_iff x y,
  subscriber_beq_iff z x,
  subscriber_beq_iff z y,
)

remove_first-IsUnique :
    (xs : List Subscriber) (x : Subscriber) → IsUnique xs → IsUnique (remove_first xs x)
unfolding remove_first IsUnique
remove_first-IsUnique [] x h = tt
remove_first-IsUnique (z ∷ xs) x h = ground (
  arith,
  remove_first-IsUnique xs x h.1,
  contains-remove_first xs x z h.1,
  subscriber_beq_iff x z,
  subscriber_beq_iff z x,
)

contains-append_one :
    (xs : List Subscriber) (x y : Subscriber)
    → contains (xs ++ x ∷ []) y ≡ (if contains xs y then true else subscriber_beq x y)
unfolding contains
contains-append_one [] x y = ground arith
contains-append_one (z ∷ xs) x y = ground (arith, contains-append_one xs x y)

append-IsUnique :
    (xs : List Subscriber) (x : Subscriber)
    → IsUnique xs
    → contains xs x ≡ false
    → IsUnique (xs ++ x ∷ [])
unfolding contains IsUnique
append-IsUnique [] x h k = (refl, tt)
append-IsUnique (z ∷ xs) x h k = ground (
  arith,
  append-IsUnique xs x h.1,
  contains-append_one xs x z,
  subscriber_beq_iff x z,
  subscriber_beq_iff z x,
)

find-IsUnique : (m : Subscriptions) (k : Bytes) → AreUnique m → IsUnique (subscribers_of k m)
unfolding find AreUnique IsUnique
find-IsUnique [] k h = tt
find-IsUnique ((j, v) ∷ m) k h = ground (arith, find-IsUnique m k h.1)

insert-AreUnique :
    (k : Bytes) (v : List Subscriber) (m : Subscriptions)
    → IsUnique v
    → AreUnique m
    → AreUnique (insert k v m)
unfolding insert AreUnique
insert-AreUnique k v [] u h = (u, tt)
insert-AreUnique k v ((j, w) ∷ m) u h = ground (arith, insert-AreUnique k v m u h.1)

erase-AreUnique : (k : Bytes) (m : Subscriptions) → AreUnique m → AreUnique (erase k m)
unfolding erase AreUnique
erase-AreUnique k [] h = tt
erase-AreUnique k ((j, w) ∷ m) h = ground (arith, erase-AreUnique k m h.1)

pub is_empty-nil : (xs : List Subscriber) → is_empty xs ≡ true → xs ≡ []
is_empty-nil [] h = refl
is_empty-nil (x ∷ xs) h = cc

remove_first_nil : (x : Subscriber) → remove_first [] x ≡ []
unfolding remove_first
remove_first_nil x = refl

find-remove_all :
    (x : Subscriber) (m : Subscriptions) (k : Bytes)
    → IsMap m
    → subscribers_of k (remove_all x m) ≡ remove_first (subscribers_of k m) x
unfolding find IsMap remove_all remove_first
find-remove_all x [] k h = refl
find-remove_all x ((j, v) ∷ m) k h = ground (
  arith,
  find-remove_all x m k h.1,
  bytes_beq_iff j k,
  is_empty-nil (remove_first v x),
  remove_first_nil x,
)

-- After the removal of a subscriber from all topics, each topic has the subscribers it had except
-- that one, where each topic has one entry and no subscriber twice.
pub get_subscribers-remove_all_subscriptions :
    (x y : Subscriber) (topic : Bytes) (s : SubscriptionManager)
    → IsValid s.exact_subscriptions
    → contains (get_subscribers topic (remove_all_subscriptions x s)) y
      ≡ (if subscriber_beq x y then false else contains (get_subscribers topic s) y)
unfolding get_subscribers remove_all_subscriptions
get_subscribers-remove_all_subscriptions x y topic s h =
    rw (find-remove_all x s.exact_subscriptions topic h.keys) (
      contains-remove_first (subscribers_of topic s.exact_subscriptions) x y
        (find-IsUnique s.exact_subscriptions topic h.unique))

add-IsValid : (k : Bytes) (x : Subscriber) (m : Subscriptions) → IsValid m → IsValid (add k x m).1
unfolding add
add-IsValid k x m h = elim (Bool-cases (contains (subscribers_of k m) x)) [
  | inl e ↦ rw e (record {
    keys = insert-IsMap k _ m h.keys;
    unique = insert-AreUnique k _ m (find-IsUnique m k h.unique) h.unique;
  })
  | inr e ↦ rw e (record {
    keys = insert-IsMap k _ m h.keys;
    unique =
        insert-AreUnique k _ m
          (append-IsUnique (subscribers_of k m) x (find-IsUnique m k h.unique) e) h.unique;
  })
]

-- Adding a subscription keeps one entry for each topic, and no subscriber twice in it.
pub add_subscription-IsValid :
    (topic : Bytes) (x : Subscriber) (s : SubscriptionManager)
    → IsValid s.exact_subscriptions
    → IsValid (add_subscription topic x s).1.exact_subscriptions
unfolding add_subscription
add_subscription-IsValid topic x s h = add-IsValid topic x s.exact_subscriptions h
