-- ===== src/Monitor.antt =====
-- src/monitor/peer_stats.hpp and src/monitor/connection_manager.cpp: the statistics of the peers,
-- by routing id. Times are numbers of microseconds that are not negative, as the callers' clock
-- gives them; counters keep their widths. The mutex makes each operation one step.
pub mod Heartbeat
pub mod Stats
pub mod Records
pub mod Dispatcher
use serverlink.Prelude.{
  ℕ, ◌+◌, ◌-◌, ◌%◌, ◌^◌, ltb, ◌==◌, Bool, true, false, not, ◌&&◌, if◌then◌else◌, Option, none, some,
  List, [], ◌∷◌, Bytes, find, insert, erase, map, length,
}
use serverlink.Prelude.Int.{ℤ, pos, negate, ◌+ℤ◌, is_pos}

pub data PeerState : Type 0 where
  disconnected : PeerState
  connecting : PeerState
  connected : PeerState
  reconnecting : PeerState

pub record PeerStats : Type 0 where
  pub last_send_time : ℕ
  pub last_recv_time : ℕ
  pub last_heartbeat_time : ℕ
  pub connection_time : ℕ
  pub bytes_sent : ℕ
  pub bytes_recv : ℕ
  pub messages_sent : ℕ
  pub messages_recv : ℕ
  pub state : PeerState
  pub reconnect_count : ℕ
  pub rtt_us : ℤ
  pub last_ping_sent : ℕ
  pub ping_timestamp : ℕ
  pub ping_outstanding : Bool

unfoldable pub new_stats : PeerStats
new_stats = record {
  last_send_time = 0;
  last_recv_time = 0;
  last_heartbeat_time = 0;
  connection_time = 0;
  bytes_sent = 0;
  bytes_recv = 0;
  messages_sent = 0;
  messages_recv = 0;
  state = disconnected;
  reconnect_count = 0;
  rtt_us = pos 0;
  last_ping_sent = 0;
  ping_timestamp = 0;
  ping_outstanding = false;
}

unfoldable pub reset : PeerStats → PeerStats
reset s = record s {
  last_send_time = 0;
  last_recv_time = 0;
  last_heartbeat_time = 0;
  connection_time = 0;
  bytes_sent = 0;
  bytes_recv = 0;
  messages_sent = 0;
  messages_recv = 0;
  rtt_us = pos 0;
  last_ping_sent = 0;
  ping_timestamp = 0;
  ping_outstanding = false;
}

-- Addition on `uint64_t`.
abbrev pub add64 : ℕ → ℕ → ℕ
add64 a b = (a + b) % 2 ^ 64

unfoldable pub count_send : ℕ → ℕ → PeerStats → PeerStats
count_send bytes now s = record s {
  bytes_sent = add64 s.bytes_sent bytes;
  messages_sent = add64 s.messages_sent 1;
  last_send_time = now;
}

unfoldable pub count_recv : ℕ → ℕ → PeerStats → PeerStats
count_recv bytes now s = record s {
  bytes_recv = add64 s.bytes_recv bytes;
  messages_recv = add64 s.messages_recv 1;
  last_recv_time = now;
}

unfoldable pub beat : ℕ → PeerStats → PeerStats
beat now s = record s { last_heartbeat_time = now; ping_outstanding = false }

-- `static_cast<int>`: the value modulo 2 ^ 32, read as a signed number.
abbrev pub to_int : ℕ → ℕ → ℤ
to_int now t =
    let w = (now + (2 ^ 32 - t % 2 ^ 32)) % 2 ^ 32 in
    if ltb w (2 ^ 31) then pos w else negate (2 ^ 32 - w)

unfoldable pub update_rtt : ℕ → PeerStats → PeerStats
update_rtt now s =
    if s.ping_outstanding && ltb 0 s.ping_timestamp
    then record s { rtt_us = to_int now s.ping_timestamp; ping_outstanding = false }
    else s
