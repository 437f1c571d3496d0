-- ===== src/Examples/Publishers.antt =====
-- A table of subscriptions as a list, and a publishing socket over it with the pipes 1 and 2, the first of
-- which is subscribed to `a`.
use serverlink.Prelude.{
  ℕ, ◌+◌, ◌≡◌, ◌≤◌, refl, arith, ◌==◌, ==_iff, Bool, true, false, ◌&&◌, ◌||◌, if◌then◌else◌, Option,
  none, some, List, [], ◌∷◌, Bytes, bytes_beq, map, inr,
}
use serverlink.Prelude.Sets.{has}
use serverlink.Msg.{Msg, with_flags}
use serverlink.Dist.{Dist}
use serverlink.Dist
use serverlink.Dist.Bounds.{IsValid}
use serverlink.Dist.Slots.{among, count}
use serverlink.Dist.Delivery.{Log, logged, logged_flush}
use serverlink.Examples.Routers.{Store, store_peers, holding}
use serverlink.Xpub.{Xpub, new_xpub, subscribe_last, xpipe_terminated, is_last}
use serverlink.Xpub.Send.{xsend}
use serverlink.Xpub.Settings.{switch, nodrop, verboser, subscription, xsetsockopt, get_nodrop, flip}
use serverlink.Options.{int_of, to_int, word, int_bytes, from_int}
use serverlink.Xpub.Table.{Subscriptions, values_remain}
use serverlink.Xpub.Closing.{cancellations, xpipe_terminated_lem}
use serverlink.Xpub.Publish.{xsend-delivery}

abbrev Pairs : Type 0
Pairs = List (Bytes × ℕ)

abbrev remove : Bytes → ℕ → Pairs → Pairs
remove k p [] = []
remove k p ((j, x) ∷ t) = if bytes_beq k j && p == x then remove k p t else (j, x) ∷ remove k p t

abbrev remove_pipe : ℕ → Pairs → Pairs
remove_pipe p [] = []
remove_pipe p ((j, x) ∷ t) = if p == x then remove_pipe p t else (j, x) ∷ remove_pipe p t

abbrev prefixes : Bytes → List Bytes
prefixes [] = [] ∷ []
prefixes (c ∷ cs) = [] ∷ map (λ q. c ∷ q) (prefixes cs)

abbrev has_bytes : Bytes → List Bytes → Bool
has_bytes k [] = false
has_bytes k (q ∷ qs) = bytes_beq k q || has_bytes k qs

abbrev matching : Bytes → Pairs → List ℕ
matching topic [] = []
matching topic ((j, x) ∷ t) =
    if has_bytes j (prefixes topic) then x ∷ matching topic t else matching topic t

-- The topics of a pipe.
abbrev topics_of : ℕ → Pairs → List Bytes
topics_of p [] = []
topics_of p ((j, x) ∷ t) = if p == x then j ∷ topics_of p t else topics_of p t

instance abbrev pair_subscriptions : Subscriptions Pairs
pair_subscriptions = record {
  add = λ q p t. (true, (q, p) ∷ t);
  rm = λ q p t. (values_remain, remove q p t);
  rm_pipe = λ p uniq t. (topics_of p t, remove_pipe p t);
  match = matching;
}

abbrev publisher : Xpub Pairs
publisher = record (new_xpub {T = Pairs} ((97 ∷ [], 1) ∷ []) false false) {
  dist = record { pipes = 1 ∷ 2 ∷ []; matching = 0; active = 2; eligible = 2; more = false };
}

-- A pipe that keeps what is written to it.
abbrev keep : ℕ → Msg → List (ℕ × Msg) → Bool × List (ℕ × Msg)
keep p m s = (true, (p, m) ∷ s)

abbrev fresh_log : Log (List (ℕ × Msg))
fresh_log = record { attempts = []; failed = []; store = [] }

abbrev topic_ab : Msg
topic_ab = with_flags 0 (97 ∷ 98 ∷ [])

once : (p : ℕ) → count (1 ∷ 2 ∷ []) p ≤ 1
once p = ground (arith, ==_iff 1 p, ==_iff 2 p)

xsend-delivery_example :
    let r =
      xsend
        (logged keep)
        (logged_flush (λ p s. s))
        (λ p s. true)
        true
        topic_ab
        publisher
        (fresh_log, 1) in
    (publisher.lossy ≡ true → r.0 ≡ true)
    × (r.0 ≡ false → (r.2 ≡ fresh_log) × (Dist.check_hwm (λ p. true) r.1.dist ≡ false))
    × (r.0 ≡ true
        → count r.2.attempts 1
          ≡ count fresh_log.attempts 1
            + (if has (matching topic_ab.body publisher.subscriptions) 1
                then among publisher.dist.pipes 0 publisher.dist.active 1
                else 0))
    × IsValid r.1.dist
unfolding with_flags new_xpub
xsend-delivery_example =
    xsend-delivery keep (λ p s. s) (λ p s. true) true topic_ab publisher fresh_log 1 1
      (record {
        matching = omega arith;
        active = omega arith;
        eligible = omega arith;
        more = inr refl;
      })
      refl once (omega arith) refl refl refl

xpipe_terminated_lem_example :
    let y = xpipe_terminated 1 publisher in
    (y.subscriptions ≡ [])
    × (y.manual_subscriptions ≡ publisher.manual_subscriptions)
    × (y.pending ≡ cancellations ((97 ∷ []) ∷ []))
    × (y.pending_pipes ≡ [])
    × (publisher.manual ≡ true → is_last 1 y.last_pipe ≡ false)
    × (y.dist ≡ Dist.pipe_terminated 1 publisher.dist)
unfolding new_xpub
xpipe_terminated_lem_example = xpipe_terminated_lem 1 publisher

-- The pipe 2 subscribes to `a`, and the pipe 1 cancels it.
abbrev requests : Store
requests = record {
  pipes =
      holding []
      ∷ holding (with_flags 0 (0 ∷ 97 ∷ []) ∷ [])
      ∷ holding (with_flags 0 (1 ∷ 97 ∷ []) ∷ [])
      ∷ [];
  ids = λ p. [];
  broken = false;
}

-- SL_XPUB_NODROP is set and read back; a negative number, and a subscription by the application while the
-- socket carries them out itself, are refused.
abbrev nodrop_of : Option (Xpub Pairs) → Option Bytes
nodrop_of none = none
nodrop_of (some x) = get_nodrop 4 x

nodrop_test :
    nodrop_of (xsetsockopt (switch nodrop) (1 ∷ 0 ∷ 0 ∷ 0 ∷ []) publisher)
    ≡ some (1 ∷ 0 ∷ 0 ∷ 0 ∷ [])
unfolding new_xpub xsetsockopt get_nodrop flip int_of to_int word int_bytes from_int
nodrop_test = refl

negative_test : xsetsockopt (switch verboser) (255 ∷ 255 ∷ 255 ∷ 255 ∷ []) publisher ≡ none
unfolding xsetsockopt int_of to_int word
negative_test = refl

automatic_test : xsetsockopt subscription (97 ∷ []) publisher ≡ none
unfolding new_xpub xsetsockopt subscribe_last
automatic_test = refl
