-- ===== src/Monitor/Stats.antt =====
-- src/monitor/connection_manager.cpp: `_stats` and the operations on it.
use serverlink.Prelude.{
  ℕ, ◌+◌, ltb, Bool, true, false, ◌&&◌, if◌then◌else◌, Option, none, some, List, [], ◌∷◌, Bytes,
  bytes_eq, find, insert, erase,
}
use serverlink.Prelude.Int.{ℤ, pos, negsuc, negate, ◌+ℤ◌}
use serverlink.Monitor.{
  PeerState, disconnected, connecting, connected, reconnecting, PeerStats, new_stats, count_send,
  count_recv, beat, update_rtt,
}

abbrev pub Stats : Type 0
Stats = List (Bytes × PeerStats)

abbrev pub or_new : Option PeerStats → PeerStats
or_new none = new_stats
or_new (some s) = s

-- A change of the entry that `get_or_create_stats` gives.
unfoldable pub get_or_create_stats : (PeerStats → PeerStats) → Bytes → Stats → Stats
get_or_create_stats change id m = insert id (change (or_new (find id m))) m

-- A change of the entry that `get_stats_internal` gives, if there is one.
abbrev pub change_found : (PeerStats → PeerStats) → Bytes → Stats → Option PeerStats → Stats
change_found change id m none = m
change_found change id m (some s) = insert id (change s) m

unfoldable pub get_stats_internal : (PeerStats → PeerStats) → Bytes → Stats → Stats
get_stats_internal change id m = change_found change id m (find id m)

unfoldable pub peer_connected : Bytes → ℕ → Stats → Stats
peer_connected id now =
    get_or_create_stats
      (λ s. record s { state = connected; connection_time = now; last_recv_time = now }) id

unfoldable pub peer_disconnected : Bytes → ℕ → Stats → Stats
peer_disconnected id now =
    get_stats_internal (λ s. record s { state = disconnected; last_heartbeat_time = now }) id

-- `reconnect_count` is an `int` that the code increments; it is taken without its bound.
unfoldable pub peer_reconnecting : Bytes → ℕ → Stats → Stats
peer_reconnecting id now =
    get_stats_internal
      (λ s. record s {
        state = reconnecting;
        reconnect_count = s.reconnect_count + 1;
        last_heartbeat_time = now;
      })
      id

unfoldable pub record_send : Bytes → ℕ → ℕ → Stats → Stats
record_send id bytes now = get_or_create_stats (count_send bytes now) id

unfoldable pub record_recv : Bytes → ℕ → ℕ → Stats → Stats
record_recv id bytes now = get_or_create_stats (count_recv bytes now) id

unfoldable pub record_heartbeat : Bytes → ℕ → Stats → Stats
record_heartbeat id now = get_stats_internal (beat now) id

abbrev pub await_pong : ℕ → PeerStats → PeerStats
await_pong now s = record s { last_ping_sent = now; ping_timestamp = now; ping_outstanding = true }

unfoldable pub mark_ping_sent : Bytes → ℕ → Stats → Stats
mark_ping_sent id now = get_stats_internal (await_pong now) id

unfoldable pub mark_pong_received : Bytes → ℕ → Stats → Stats
mark_pong_received id now = get_stats_internal (λ s. beat now (update_rtt now s)) id

abbrev pub is_connected_state : PeerState → Bool
is_connected_state disconnected = false
is_connected_state connecting = false
is_connected_state connected = true
is_connected_state reconnecting = false

abbrev pub is_disconnected_state : PeerState → Bool
is_disconnected_state disconnected = true
is_disconnected_state connecting = false
is_disconnected_state connected = false
is_disconnected_state reconnecting = false

unfoldable pub get_state : Bytes → Stats → PeerState
get_state id m = elim (find id m) [ none ↦ disconnected | some s ↦ s.state ]

unfoldable pub is_connected : Bytes → Stats → Bool
is_connected id m = elim (find id m) [ none ↦ false | some s ↦ is_connected_state s.state ]

unfoldable pub get_stats : Bytes → Stats → Option PeerStats
get_stats id m = find id m

unfoldable pub get_rtt : Bytes → Stats → ℤ
get_rtt id m = elim (find id m) [ none ↦ pos 0 | some s ↦ s.rtt_us ]

unfoldable pub get_connected_peers : Stats → List Bytes
get_connected_peers [] = []
get_connected_peers ((id, s) ∷ m) =
    if is_connected_state s.state then id ∷ get_connected_peers m else get_connected_peers m

unfoldable pub get_peer_count : Stats → ℕ
get_peer_count [] = 0
get_peer_count ((id, s) ∷ m) =
    if is_connected_state s.state then get_peer_count m + 1 else get_peer_count m

-- `a > b` on `int64_t`, for the difference that the code computes.
abbrev exceeds : ℤ → ℤ → Bool
exceeds (pos a) (pos b) = ltb b a
exceeds (pos a) (negsuc b) = true
exceeds (negsuc a) (pos b) = false
exceeds (negsuc a) (negsuc b) = ltb a b

abbrev pub is_stale : ℤ → PeerStats → Bool
is_stale timeout s =
    is_disconnected_state s.state
    && ltb 0 s.last_heartbeat_time
    && exceeds (timeout +ℤ negate s.last_heartbeat_time) timeout

unfoldable pub cleanup_stale_peers : ℤ → Stats → Stats
cleanup_stale_peers timeout [] = []
cleanup_stale_peers timeout ((id, s) ∷ m) =
    if is_stale timeout s
    then cleanup_stale_peers timeout m
    else (id, s) ∷ cleanup_stale_peers timeout m

unfoldable pub remove_peer : Bytes → Stats → Stats
remove_peer id m = erase id m
