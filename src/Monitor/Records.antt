-- ===== src/Monitor/Records.antt =====
-- The statistics of one peer do not depend on what is recorded for the others, the connected peers
-- are counted right, and a round trip of a heartbeat is measured.
use serverlink.Prelude.{
  ℕ, lt→ltb, ◌+◌, ◌-◌, ◌≤◌, ◌<◌, ◌^◌, ◌%◌, ◌≡◌, false, some, [], ◌∷◌, Bool-cases, inl, inr,
  Option-cases, Bytes, bytes_eq, bytes_beq, bytes_beq_iff, bytes_beq_refl, ◌≢◌, find, IsMap,
  find-insert, insert-IsMap, erase-IsMap, find-erase, length, refl, arith, ◌∙◌,
}
use serverlink.Prelude.Int.{ℤ, pos, negsuc}
use serverlink.Monitor.{PeerStats, beat, update_rtt, to_int}
use serverlink.Monitor.Stats.{
  Stats, await_pong, or_new, get_or_create_stats, get_stats_internal, peer_connected,
  peer_disconnected, peer_reconnecting, record_send, record_recv, record_heartbeat, mark_ping_sent,
  mark_pong_received, get_stats, get_rtt, get_connected_peers, get_peer_count, cleanup_stale_peers,
  remove_peer, is_stale,
}

-- What happens to a peer, with its routing id.
pub data Event : Type 0 where
  peer_connected_at : Event
  peer_disconnected_at : Event
  peer_reconnecting_at : Event
  sent : ℕ → Event
  received : ℕ → Event
  heartbeat_at : Event
  ping_sent_at : Event
  pong_received_at : Event
  removed : Event

unfoldable pub record_event : Event → Bytes → ℕ → Stats → Stats
record_event peer_connected_at id now = peer_connected id now
record_event peer_disconnected_at id now = peer_disconnected id now
record_event peer_reconnecting_at id now = peer_reconnecting id now
record_event (sent bytes) id now = record_send id bytes now
record_event (received bytes) id now = record_recv id bytes now
record_event heartbeat_at id now = record_heartbeat id now
record_event ping_sent_at id now = mark_ping_sent id now
record_event pong_received_at id now = mark_pong_received id now
record_event removed id now = remove_peer id

beq_ne : (id j : Bytes) → id ≢ j → bytes_beq id j ≡ false
beq_ne id j h = elim (Bool-cases (bytes_beq id j)) [
  | inl e ↦ absurd (h ((bytes_beq_iff id j).0 e))
  | inr e ↦ e
]

create-other :
    (f : PeerStats → PeerStats) (id j : Bytes) (m : Stats)
    → id ≢ j
    → find j (get_or_create_stats f id m) ≡ find j m
unfolding get_or_create_stats
create-other f id j m h = rw (find-insert id j (f (or_new (find id m))) m, beq_ne id j h) refl

change-other :
    (f : PeerStats → PeerStats) (id j : Bytes) (m : Stats)
    → id ≢ j
    → find j (get_stats_internal f id m) ≡ find j m
unfolding get_stats_internal
change-other f id j m h = elim (Option-cases (find id m)) [
  | inl e ↦ rw e refl
  | inr (s, e) ↦ rw e (rw (find-insert id j (f s) m, beq_ne id j h) refl)
]

-- What is recorded for a peer leaves the statistics of every other peer as they are.
pub record_event-other :
    (e : Event) (id j : Bytes) (now : ℕ) (m : Stats)
    → IsMap m
    → id ≢ j
    → get_stats j (record_event e id now m) ≡ get_stats j m
unfolding record_event peer_connected peer_disconnected peer_reconnecting record_send record_recv
    record_heartbeat mark_ping_sent mark_pong_received remove_peer get_stats
record_event-other peer_connected_at id j now m k h = create-other _ id j m h
record_event-other peer_disconnected_at id j now m k h = change-other _ id j m h
record_event-other peer_reconnecting_at id j now m k h = change-other _ id j m h
record_event-other (sent bytes) id j now m k h = create-other _ id j m h
record_event-other (received bytes) id j now m k h = create-other _ id j m h
record_event-other heartbeat_at id j now m k h = change-other _ id j m h
record_event-other ping_sent_at id j now m k h = change-other _ id j m h
record_event-other pong_received_at id j now m k h = change-other _ id j m h
record_event-other removed id j now m k h = rw (find-erase id j m k, beq_ne id j h) refl

create-IsMap :
    (f : PeerStats → PeerStats) (id : Bytes) (m : Stats)
    → IsMap m
    → IsMap (get_or_create_stats f id m)
unfolding get_or_create_stats
create-IsMap f id m h = insert-IsMap id _ m h

change-IsMap :
    (f : PeerStats → PeerStats) (id : Bytes) (m : Stats)
    → IsMap m
    → IsMap (get_stats_internal f id m)
unfolding get_stats_internal
change-IsMap f id m h = elim (Option-cases (find id m)) [
  | inl e ↦ rw e h
  | inr (s, e) ↦ rw e (insert-IsMap id (f s) m h)
]

pub record_event-IsMap :
    (e : Event) (id : Bytes) (now : ℕ) (m : Stats) → IsMap m → IsMap (record_event e id now m)
unfolding record_event peer_connected peer_disconnected peer_reconnecting record_send record_recv
    record_heartbeat mark_ping_sent mark_pong_received remove_peer
record_event-IsMap peer_connected_at id now m h = create-IsMap _ id m h
record_event-IsMap peer_disconnected_at id now m h = change-IsMap _ id m h
record_event-IsMap peer_reconnecting_at id now m h = change-IsMap _ id m h
record_event-IsMap (sent bytes) id now m h = create-IsMap _ id m h
record_event-IsMap (received bytes) id now m h = create-IsMap _ id m h
record_event-IsMap heartbeat_at id now m h = change-IsMap _ id m h
record_event-IsMap ping_sent_at id now m h = change-IsMap _ id m h
record_event-IsMap pong_received_at id now m h = change-IsMap _ id m h
record_event-IsMap removed id now m h = erase-IsMap id m h

-- The count of the connected peers is the number of those that are listed.
pub get_peer_count_lem : (m : Stats) → get_peer_count m ≡ length (get_connected_peers m)
unfolding get_peer_count get_connected_peers
get_peer_count_lem [] = refl
get_peer_count_lem ((id, s) ∷ m) = ground (arith, get_peer_count_lem m)

changed :
    (f : PeerStats → PeerStats) (id : Bytes) (s : PeerStats) (m : Stats)
    → find id m ≡ some s
    → find id (get_stats_internal f id m) ≡ some (f s)
unfolding get_stats_internal
changed f id s m h = rw h (rw (find-insert id id (f s) m, bytes_beq_refl id) refl)

get_rtt_found :
    (id : Bytes) (s : PeerStats) (m : Stats) → find id m ≡ some s → get_rtt id m ≡ s.rtt_us
unfolding get_rtt
get_rtt_found id s m h = rw (get_rtt, h) refl

wrapped : (t t' : ℕ) → t ≤ t' → t' - t < 2 ^ 31 → (t' + (2 ^ 32 - t % 2 ^ 32)) % 2 ^ 32 ≡ t' - t
wrapped t t' l b = omega arith

measured : (t t' : ℕ) → t ≤ t' → t' - t < 2 ^ 31 → to_int t' t ≡ pos (t' - t)
measured t t' l b = rw (wrapped t t' l b, lt→ltb (t' - t) (2 ^ 31) b) refl

-- A ping that was sent to a known peer after time 0, and its pong within 2 ^ 31 microseconds, leave
-- the time between them as the round trip, whatever the peer's statistics were.
pub rtt-pong-ping :
    (id : Bytes) (t t' : ℕ) (m : Stats) (s : PeerStats)
    → get_stats id m ≡ some s
    → 0 < t
    → t ≤ t'
    → t' - t < 2 ^ 31
    → get_rtt id (mark_pong_received id t' (mark_ping_sent id t m)) ≡ pos (t' - t)
unfolding get_stats mark_pong_received mark_ping_sent update_rtt beat
rtt-pong-ping id t t' m s h p l b =
    get_rtt_found id (beat t' (update_rtt t' (await_pong t s))) _ (
      changed (λ r. beat t' (update_rtt t' r)) id (await_pong t s) (mark_ping_sent id t m)
        (changed (await_pong t) id s m h))
    ∙ rw (lt→ltb 0 t p) (measured t t' l b)

never_stale : (timeout : ℤ) (s : PeerStats) → is_stale timeout s ≡ false
never_stale (pos a) s = ground arith
never_stale (negsuc a) s = ground arith

-- The cleanup of stale peers removes none, whatever the timeout and the peers: it subtracts the time
-- of the last heartbeat from the timeout and not from the current time.
pub cleanup_stale_peers-none : (timeout : ℤ) (m : Stats) → cleanup_stale_peers timeout m ≡ m
unfolding cleanup_stale_peers
cleanup_stale_peers-none timeout [] = refl
cleanup_stale_peers-none timeout ((id, s) ∷ m) =
    rw (never_stale timeout s, cleanup_stale_peers-none timeout m) refl
