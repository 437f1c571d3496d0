-- ===== src/Xpub/Requests.antt =====
-- The subscriptions of the peers, and what the application is told (src/core/xpub.cpp), follow the requests
-- that they sent.
use serverlink.Prelude.{
  ℕ, ◌≡◌, Bool, true, false, not, ◌&&◌, ◌||◌, if◌then◌else◌, Option, none, some, List, [], ◌∷◌,
  ◌++◌,
}
use serverlink.Msg.{Msg, with_flags}
use serverlink.Peers.{Peers}
use serverlink.Xpub.{Xpub, Request, request_of, notification}
use serverlink.Xpub.Table.{Subscriptions, RmResult, values_remain, not_found, last_value_removed}

module _ {S : Type 0} ⦃peers : Peers S⦄ where
  -- The messages that a pipe gives until it has none.
  pub data Reads (p : ℕ) : List Msg → S → S → Type 0 where
    stop : (s : S) → (peers.read p s).0 ≡ none → Reads p [] s (peers.read p s).1
    next :
        (m : Msg) (ms : List Msg) (s s' : S)
        → (peers.read p s).0 ≡ some m
        → Reads p ms (peers.read p s).1 s'
        → Reads p (m ∷ ms) s s'

-- Nothing of the prefix is left for the pipe or for others.
abbrev pub is_last_one : RmResult → Bool
is_last_one values_remain = false
is_last_one not_found = true
is_last_one last_value_removed = true

-- Whether the application is told of all requests to subscribe, and of all cancellations, and of neither for a
-- PUB socket.
pub record Telling : Type 0 where
  pub is_pub : Bool
  pub subscriptions : Bool
  pub cancellations : Bool

module _ {T : Type 0} ⦃subs : Subscriptions T⦄ where
  abbrev pub telling : Xpub T → Telling
  telling x = record {
    is_pub = x.is_pub;
    subscriptions = x.verbose_subs;
    cancellations = x.verbose_unsubs;
  }

  -- A request of the pipe `p`: the table after it, and whether it is news.
  abbrev pub carried_out : ℕ → Request → T → T
  carried_out p r t = if r.subscribe then (subs.add r.topic p t).1 else (subs.rm r.topic p t).1

  abbrev pub is_news : Telling → ℕ → Request → T → Bool
  is_news c p r t =
      if r.subscribe
      then (subs.add r.topic p t).0 || c.subscriptions
      else is_last_one (subs.rm r.topic p t).0 || c.cancellations

  -- What a message does to the table and puts in the queue for the application.
  abbrev pub outcome : Telling → ℕ → Option Request → Msg → T × List Msg → T × List Msg
  outcome c p none m (t, out) = (t, if c.is_pub then out else out ++ with_flags m.flags m.body ∷ [])
  outcome c p (some r) m (t, out) = (
    carried_out p r t,
    if not c.is_pub && is_news c p r t then out ++ notification r ∷ [] else out,
  )

  abbrev pub outcomes : Telling → ℕ → List Msg → T × List Msg → T × List Msg
  outcomes c p [] y = y
  outcomes c p (m ∷ ms) y = outcomes c p ms (outcome c p (request_of m) m y)

  -- Every part of a message may be a request, and requests are carried out at once.
  pub record IsPlain (x : Xpub T) : Type 0 where
    pub manual : x.manual ≡ false
    pub all : x.only_first_subscribe ≡ false
    pub parts : (x.more_recv && not x.process_subscribe) ≡ false

  -- What a message may change, with the table and the queue after it.
  record Keeps (x y : Xpub T) (z : T × List Msg) : Type 0 where
    result : (y.subscriptions, y.pending) ≡ z
    manual : y.manual ≡ x.manual
    all : y.only_first_subscribe ≡ x.only_first_subscribe
    more : y.more_recv ≡ x.more_recv
    process : y.process_subscribe ≡ x.process_subscribe
    telling : telling y ≡ telling x

  told : Request → Bool → Xpub T → List Msg
  told r b x = if not x.is_pub && b then x.pending ++ notification r ∷ [] else x.pending
