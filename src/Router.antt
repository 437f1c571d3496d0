-- ===== src/Router.antt =====
-- src/core/router.cpp: a socket that sends each message to the peer whose routing id stands in its first
-- part, and puts the id of the peer in front of each message that it receives. Pipes are numbers.
pub mod Table
pub mod Send
pub mod Receive
pub mod Settings
pub mod Routing
pub mod Replies
pub mod Peerage
pub mod Identity
pub mod Invariant
pub mod Steps
pub mod Others
pub mod Runs
use serverlink.Prelude.{
  ℕ, ◌+◌, ◌%◌, ◌^◌, ◌==◌, Bool, true, false, not, ◌&&◌, if◌then◌else◌, Option, none, some, List, [],
  ◌∷◌, Bytes, length,
}
use serverlink.Prelude.Sets.{has, insert, erase}
use serverlink.Msg.{Msg, init, is_more, with_flags}
use serverlink.Wire.{put_uint32}
use serverlink.Fq.{Fq, new_fq}
use serverlink.Fq
use serverlink.Peers.{Peers}
use serverlink.Monitor.Stats.{Stats, peer_connected, peer_disconnected}
use serverlink.Monitor.Dispatcher.{
  Dispatcher, new_dispatcher, dispatch_event, EventType, peer_connected_event,
  peer_disconnected_event,
}
use Table.{OutPipe, OutPipes, add_out_pipe, has_out_pipe, lookup_out_pipe, erase_out_pipe}

-- `raw_option` is `options.raw_socket`.
pub record Router : Type 0 where
  pub fq : Fq
  pub prefetched : Bool
  pub routing_id_sent : Bool
  pub prefetched_id : Msg
  pub prefetched_msg : Msg
  pub current_in : Option ℕ
  pub terminate_current_in : Bool
  pub more_in : Bool
  pub anonymous_pipes : List ℕ
  pub current_out : Option ℕ
  pub more_out : Bool
  pub next_integral_routing_id : ℕ
  pub mandatory : Bool
  pub raw_socket : Bool
  pub probe_router : Bool
  pub handover : Bool
  pub out_pipes : OutPipes
  pub connect_routing_id : Bytes
  pub raw_option : Bool
  pub recv_routing_id : Bool
  pub router_notify : ℕ
  pub conn_manager : Stats
  pub event_dispatcher : Dispatcher

-- The first id to generate is random.
unfoldable pub new_router : ℕ → Router
new_router random = record {
  fq = new_fq;
  prefetched = false;
  routing_id_sent = false;
  prefetched_id = init;
  prefetched_msg = init;
  current_in = none;
  terminate_current_in = false;
  more_in = false;
  anonymous_pipes = [];
  current_out = none;
  more_out = false;
  next_integral_routing_id = random % 2 ^ 32;
  mandatory = false;
  raw_socket = false;
  probe_router = false;
  handover = false;
  out_pipes = [];
  connect_routing_id = [];
  raw_option = false;
  recv_routing_id = true;
  router_notify = 0;
  conn_manager = [];
  event_dispatcher = new_dispatcher;
}

abbrev pub is_empty : Bytes → Bool
is_empty [] = true
is_empty (x ∷ xs) = false

abbrev pub is_current : ℕ → Option ℕ → Bool
is_current p none = false
is_current p (some c) = c == p

-- The generated id of the counter, and the counter after it.
unfoldable pub integral_id : ℕ → Bytes
integral_id n = 0 ∷ put_uint32 n

unfoldable pub count_id : Router → Router
count_id r = record r { next_integral_routing_id = (r.next_integral_routing_id + 1) % 2 ^ 32 }

abbrev pub notify : EventType → Bytes → ℕ → Router → Router
notify t id now r = record r {
  event_dispatcher =
      dispatch_event (record { type = t; routing_id = id; time = now }) r.event_dispatcher;
}

-- The monitor is told only of peers that have an id.
abbrev pub tell_disconnected : Bytes → ℕ → Router → Router
tell_disconnected id now r =
    if is_empty id
    then r
    else notify peer_disconnected_event id now
        (record r { conn_manager = peer_disconnected id now r.conn_manager })

-- The monitor is told of the new peer.
abbrev pub enter : Bytes → ℕ → OutPipes → Router → Router
enter id now m r =
    notify peer_connected_event id now
      (record r { out_pipes = m; conn_manager = peer_connected id now r.conn_manager })

-- A peer that has its id, one whose id has not come or is refused, or a failed assertion.
pub data Identified (S : Type 0) : Type 0 where
  known : Router → S → Identified S
  unknown : Router → S → Identified S
  broken : Identified S

module _ {S : Type 0} ⦃peers : Peers S⦄ where
  -- The end of `identify_peer`.
  unfoldable pub add_peer : Bytes → ℕ → ℕ → Router → S → Identified S
  add_peer id p now r s = elim (add_out_pipe id p r.out_pipes) [
    | none ↦ broken
    | some m ↦ known (enter id now m r) (peers.set_routing_id p id s)
  ]

  -- The pipe that had the id goes on under a generated one until it has terminated.
  abbrev pub rename : ℕ → OutPipes → Router → S → Router × S
  rename old m r s =
      let s' = peers.set_routing_id old (integral_id r.next_integral_routing_id) s in
      if is_current old r.current_in
      then (record (count_id r) { out_pipes = m; terminate_current_in = true }, s')
      else (record (count_id r) { out_pipes = m }, peers.terminate old true s')

  unfoldable pub hand_over : ℕ → Router → S → Option (Router × S)
  hand_over old r s =
      elim (add_out_pipe (integral_id r.next_integral_routing_id) old
        (erase_out_pipe old r.out_pipes)) [ none ↦ none | some m ↦ some (rename old m r s) ]

  abbrev pub add_handed_over : Bytes → ℕ → ℕ → Option (Router × S) → Identified S
  add_handed_over id p now none = broken
  add_handed_over id p now (some (r, s)) = add_peer id p now r s

  -- What the peer sent as its id.
  unfoldable pub identify_by : Msg → ℕ → ℕ → Router → S → Identified S
  identify_by m p now r s =
      if is_empty m.body
      then add_peer (integral_id r.next_integral_routing_id) p now (count_id r) s
      else elim (lookup_out_pipe m.body r.out_pipes) [
        | none ↦ add_peer m.body p now r s
        | some o ↦
            if not r.handover
            then unknown r s
            else add_handed_over m.body p now (hand_over o.pipe r s)
      ]

  unfoldable pub identify_peer : ℕ → Bool → ℕ → Router → S → Identified S
  identify_peer p locally_initiated now r s =
      if locally_initiated && not (is_empty r.connect_routing_id)
      then (if has_out_pipe r.connect_routing_id r.out_pipes
          then broken
          else add_peer r.connect_routing_id p now (record r { connect_routing_id = [] }) s)
      else if r.raw_option
      then add_peer (integral_id r.next_integral_routing_id) p now (count_id r) s
      else elim (peers.read p s).0 [
        | none ↦ unknown r (peers.read p s).1
        | some m ↦ identify_by m p now r (peers.read p s).1
      ]

  abbrev pub probe : ℕ → Router → S → S
  probe p r s = if r.probe_router then peers.flush p (peers.write p init s).1 else s

  abbrev pub attached : ℕ → Identified S → Option (Router × S)
  attached p (known r s) = some (record r { fq = Fq.attach p r.fq }, s)
  attached p (unknown r s) = some (record r { anonymous_pipes = insert r.anonymous_pipes p }, s)
  attached p broken = none

  -- A failed assertion is `none`.
  unfoldable pub xattach_pipe : ℕ → Bool → ℕ → Router → S → Option (Router × S)
  xattach_pipe p locally_initiated now r s =
      attached p (identify_peer p locally_initiated now r (probe p r s))

  abbrev pub identified : ℕ → Identified S → Option (Router × S)
  identified p (known r s) =
      some (record r { anonymous_pipes = erase r.anonymous_pipes p; fq = Fq.attach p r.fq }, s)
  identified p (unknown r s) = some (r, s)
  identified p broken = none

  unfoldable pub xread_activated : ℕ → ℕ → Router → S → Option (Router × S)
  xread_activated p now r s =
      if has r.anonymous_pipes p
      then identified p (identify_peer p false now r s)
      else some (record r { fq = Fq.activated p r.fq }, s)

  unfoldable pub xpipe_terminated : ℕ → ℕ → Router → S → Router × S
  xpipe_terminated p now r s =
      if has r.anonymous_pipes p
      then (record r { anonymous_pipes = erase r.anonymous_pipes p }, s)
      else (
        (let r' = tell_disconnected (peers.get_routing_id p s) now r in
            record r' {
              out_pipes = erase_out_pipe p r'.out_pipes;
              fq = Fq.pipe_terminated p r'.fq;
              current_out = if is_current p r'.current_out then none else r'.current_out;
            }),
        peers.rollback p s,
      )
