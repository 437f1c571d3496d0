-- ===== src/Xpub.antt =====
-- src/core/xpub.cpp, src/core/pub.cpp: a socket that publishes each message to the pipes that subscribed
-- to a prefix of it, and hands the subscriptions of its peers to the application.
pub mod Table
pub mod Send
pub mod Requests
pub mod Publish
pub mod Settings
pub mod Closing
use serverlink.Prelude.{
  ℕ, zero, suc, ◌==◌, ltb, Bool, true, false, not, ◌&&◌, ◌||◌, if◌then◌else◌, Option, none, some,
  List, [], ◌∷◌, ◌++◌, drop, length, Bytes,
}
use serverlink.Msg.{Msg, init, is_more, is_subscribe, is_cancel, is_command, with_flags}
use serverlink.Dist.{Dist, new_dist, has_pipe, unmatch, match, reverse_match}
use serverlink.Dist
use serverlink.Peers.{Peers}
use Table.{Subscriptions, RmResult, values_remain}

-- `pending` holds the bytes and the flags of `_pending_data` and `_pending_flags`; `is_pub` says that
-- `options.type` is SL_PUB. Metadata is not modelled.
pub record Xpub (T : Type 0) : Type 0 where
  pub dist : Dist
  pub subscriptions : T
  pub manual_subscriptions : T
  pub verbose_subs : Bool
  pub verbose_unsubs : Bool
  pub more_send : Bool
  pub more_recv : Bool
  pub process_subscribe : Bool
  pub only_first_subscribe : Bool
  pub lossy : Bool
  pub manual : Bool
  pub send_last_pipe : Bool
  pub pending_pipes : List (Option ℕ)
  pub last_pipe : Option ℕ
  pub welcome_msg : Msg
  pub pending : List Msg
  pub is_pub : Bool
  pub invert_matching : Bool

unfoldable pub new_xpub : {T : Type 0} → T → Bool → Bool → Xpub T
new_xpub empty is_pub invert = record {
  dist = new_dist;
  subscriptions = empty;
  manual_subscriptions = empty;
  verbose_subs = false;
  verbose_unsubs = false;
  more_send = false;
  more_recv = false;
  process_subscribe = false;
  only_first_subscribe = false;
  lossy = true;
  manual = false;
  send_last_pipe = false;
  pending_pipes = [];
  last_pipe = none;
  welcome_msg = init;
  pending = [];
  is_pub = is_pub;
  invert_matching = invert;
}

-- A request of a peer: to subscribe to a topic, or to cancel that.
pub record Request : Type 0 where
  pub subscribe : Bool
  pub topic : Bytes

-- `command_body`: a command starts with its name, but over inproc there is only the topic.
abbrev pub command_topic : Msg → Bytes
command_topic m =
    if not (is_command m) then m.body else drop (if is_subscribe m then 10 else 7) m.body

abbrev pub old_style : Bytes → Option Request
old_style [] = none
old_style (c ∷ cs) =
    if (c == 0) || (c == 1) then some (record { subscribe = c == 1; topic = cs }) else none

unfoldable pub request_of : Msg → Option Request
request_of m =
    if is_subscribe m || is_cancel m
    then some (record { subscribe = is_subscribe m; topic = command_topic m })
    else old_style m.body

-- A message in the form before ZMTP 3.1.
abbrev pub notification : Request → Msg
notification r = with_flags 0 ((if r.subscribe then 1 else 0) ∷ r.topic)

abbrev pub is_request : Option Request → Bool
is_request none = false
is_request (some r) = true

abbrev pub is_last : ℕ → Option ℕ → Bool
is_last p none = false
is_last p (some l) = p == l

module _ {T : Type 0} ⦃subs : Subscriptions T⦄ where
  -- Whether the application is told, and the socket with the request carried out.
  abbrev pub subscribe_to : ℕ → Request → Xpub T → Bool × Xpub T
  subscribe_to p r x =
      let a = subs.add r.topic p x.subscriptions in
      (a.0 || x.verbose_subs, record x { subscriptions = a.1 })

  abbrev pub cancel : ℕ → Request → Xpub T → Bool × Xpub T
  cancel p r x =
      let a = subs.rm r.topic p x.subscriptions in
      (elim a.0 [ values_remain ↦ x.verbose_unsubs | _ ↦ true ], record x { subscriptions = a.1 })

  abbrev pub store_manual : ℕ → Request → Xpub T → Xpub T
  store_manual p r x = record x {
    manual_subscriptions =
        if r.subscribe
        then (subs.add r.topic p x.manual_subscriptions).1
        else (subs.rm r.topic p x.manual_subscriptions).1;
    pending_pipes = x.pending_pipes ++ some p ∷ [];
    pending = x.pending ++ notification r ∷ [];
  }

  abbrev pub tell : Request → Bool × Xpub T → Xpub T
  tell r (notify, x) =
      if not x.is_pub && notify then record x { pending = x.pending ++ notification r ∷ [] } else x

  unfoldable pub process_request : ℕ → Request → Xpub T → Xpub T
  process_request p r x =
      if x.manual
      then store_manual p r x
      else tell r (if r.subscribe then subscribe_to p r x else cancel p r x)

  -- A message that is no request goes to the application, but not of a PUB socket.
  abbrev pub user_message : Msg → Xpub T → Xpub T
  user_message m x =
      if x.is_pub then x else record x { pending = x.pending ++ with_flags m.flags m.body ∷ [] }

  -- One round of the loop of `xread_activated`.
  unfoldable pub process_message : ℕ → Msg → Xpub T → Xpub T
  process_message p m x =
      let first_part = not x.more_recv in
      let request = if first_part || x.process_subscribe then request_of m else none in
      let x' = record x {
        more_recv = is_more m;
        process_subscribe =
            if first_part
            then not x.only_first_subscribe || is_request request
            else x.process_subscribe;
      } in
      elim request [ none ↦ user_message m x' | some r ↦ process_request p r x' ]

  -- The unsubscriptions that `rm` hands to `send_unsubscription`.
  unfoldable pub send_unsubscriptions : List Bytes → Xpub T → Xpub T
  send_unsubscriptions [] x = x
  send_unsubscriptions (q ∷ qs) x =
      if x.is_pub
      then send_unsubscriptions qs x
      else send_unsubscriptions qs (record x {
        pending = x.pending ++ notification (record { subscribe = false; topic = q }) ∷ [];
        last_pipe = if x.manual then none else x.last_pipe;
        pending_pipes = if x.manual then x.pending_pipes ++ none ∷ [] else x.pending_pipes;
      })

  unfoldable pub xpipe_terminated : ℕ → Xpub T → Xpub T
  xpipe_terminated p x =
      let x' =
        if x.manual
        then (let a = subs.rm_pipe p false x.manual_subscriptions in
            let y = send_unsubscriptions a.0 (record x { manual_subscriptions = a.1 }) in
            record y {
              subscriptions = (subs.rm_pipe p false y.subscriptions).1;
              last_pipe = if is_last p y.last_pipe then none else y.last_pipe;
            })
        else (let a = subs.rm_pipe p (not x.verbose_unsubs) x.subscriptions in
            send_unsubscriptions a.0 (record x { subscriptions = a.1 })) in
      record x' { dist = Dist.pipe_terminated p x'.dist }

  -- The pipe whose request the application reads, if it is still there.
  abbrev pub next_last_pipe : Xpub T → List (Option ℕ) → Xpub T
  next_last_pipe x [] = x
  next_last_pipe x (none ∷ ps) = record x { last_pipe = none; pending_pipes = ps }
  next_last_pipe x (some p ∷ ps) = record x {
    last_pipe = if has_pipe p x.dist then some p else none;
    pending_pipes = ps;
  }

  abbrev pub take_pending : Xpub T → List Msg → Option Msg × Xpub T
  take_pending x [] = (none, x)
  take_pending x (m ∷ ms) =
      (some m, record (if x.manual then next_last_pipe x x.pending_pipes else x) { pending = ms })

  -- EAGAIN is `none`.
  unfoldable pub xrecv : Xpub T → Option Msg × Xpub T
  xrecv x = take_pending x x.pending

  unfoldable pub xhas_in : Xpub T → Bool
  xhas_in x = not (length x.pending == 0)

  -- SL_SUBSCRIBE and SL_UNSUBSCRIBE; EINVAL is `none`.
  unfoldable pub subscribe_last : Bool → Bytes → Xpub T → Option (Xpub T)
  subscribe_last subscribe topic x = if not x.manual then none else elim x.last_pipe [
    | none ↦ some x
    | some p ↦ some (record x {
      subscriptions =
          if subscribe
          then (subs.add topic p x.subscriptions).1
          else (subs.rm topic p x.subscriptions).1;
    })
  ]

  unfoldable pub set_welcome_msg : Bytes → Xpub T → Xpub T
  set_welcome_msg text x = record x { welcome_msg = with_flags 0 text }

module _ {T S : Type 0} ⦃subs : Subscriptions T⦄ ⦃peers : Peers S⦄ where
  -- The measure of what waits in the pipes is fuel enough.
  unfoldable pub read_loop : ℕ → ℕ → Xpub T → S → Xpub T × S
  read_loop zero p x s = (x, s)
  read_loop (suc f) p x s = elim (peers.read p s).0 [
    | none ↦ (x, (peers.read p s).1)
    | some m ↦ read_loop f p (process_message p m x) (peers.read p s).1
  ]

  unfoldable pub xread_activated : ℕ → Xpub T → S → Xpub T × S
  xread_activated p x s = read_loop (suc (peers.pending s)) p x s

  -- A welcome message that the new pipe does not take is a failed assertion.
  abbrev pub welcome : ℕ → Xpub T → S → Option S
  welcome p x s =
      if length x.welcome_msg.body == 0
      then some s
      else if (peers.write p x.welcome_msg s).0
      then some (peers.flush p (peers.write p x.welcome_msg s).1)
      else none

  unfoldable pub xattach_pipe : ℕ → Bool → Xpub T → S → Option (Xpub T × S)
  xattach_pipe p subscribe_to_all x s =
      let y = record x { dist = Dist.attach p x.dist } in
      let z =
        if subscribe_to_all
        then record y { subscriptions = (subs.add [] p y.subscriptions).1 }
        else y in
      elim (welcome p z s) [ none ↦ none | some s' ↦ some (xread_activated p z s') ]
