-- ===== src/Router/Receive.antt =====
-- Receiving (src/core/router.cpp): the id of the peer is given before the first part of its message, which
-- is kept in the meantime.
use serverlink.Prelude.{ℕ, zero, suc, Bool, true, false, if◌then◌else◌, Option, none, some, Bytes}
use serverlink.Msg.{Msg, init, is_more, is_routing_id, with_flags}
use serverlink.Fq.{Received, recvpipe}
use serverlink.Fq
use serverlink.Peers.{Peers}
use serverlink.Monitor.Heartbeat.{
  is_heartbeat, is_ping, is_pong, create_pong, extract_ping_timestamp,
}
use serverlink.Monitor.Stats.{record_heartbeat, mark_pong_received}
use serverlink.Router.{Router}
use serverlink.Router.Send.{xsend, routing_frame}

-- A message part, EAGAIN, or a failed assertion.
pub data Taken : Type 0 where
  taken : Msg → Taken
  eagain : Taken
  broken : Taken

-- `_prefetched_msg.move (*msg_)` leaves an empty message in `msg_`, the second one here.
abbrev pub move : Msg → Msg × Msg
move m = (m, init)

module _ {S : Type 0} ⦃peers : Peers S⦄ where
  -- Routing ids, which come again after a reconnection, are skipped. The measure of what waits is fuel
  -- enough.
  unfoldable pub recv_loop : ℕ → Fq.Fq → S → Option (Received × Fq.Fq × S)
  recv_loop zero q s = none
  recv_loop (suc f) q s =
      let x = recvpipe peers.read q s in
      let rest = recv_loop f x.1 x.2 in
      elim x.0 [
        | Fq.message m p ↦ if is_routing_id m then rest else some x
        | Fq.eagain ↦ some x
        | Fq.broken ↦ some x
      ]

  unfoldable pub recv_next : Fq.Fq → S → Option (Received × Fq.Fq × S)
  recv_next q s = recv_loop (suc (peers.pending s)) q s

  abbrev pub id_frame : ℕ → S → Msg
  id_frame p s = with_flags 1 (peers.get_routing_id p s)

  -- After the last part, the pipe that lost its id to another one is terminated.
  abbrev pub finish_in : Router → S → Option (Router × S)
  finish_in r s =
      if r.terminate_current_in
      then elim r.current_in [
        | none ↦ none
        | some p ↦
            some (
              record r { terminate_current_in = false; current_in = none },
              peers.terminate p true s,
            )
      ]
      else some (record r { current_in = none }, s)

  abbrev pub finished : Msg → Option (Router × S) → Router → S → Taken × Router × S
  finished m none r s = (broken, r, s)
  finished m (some (r', s')) r s = (taken m, r', s')

  -- A part that is read while parts of its message are expected.
  abbrev pub take_part : Msg → Router → S → Taken × Router × S
  take_part m r s =
      let r' = record r { more_in = is_more m } in
      if is_more m then (taken m, r', s) else finished m (finish_in r' s) r' s

  abbrev pub forget_id : Taken × Router × S → Taken × Router × S
  forget_id (t, r, s) = (t, (if r.more_in then r else record r { routing_id_sent = false }), s)

  unfoldable pub take_prefetched : Router → S → Taken × Router × S
  take_prefetched r s =
      if r.routing_id_sent
      then forget_id
          (take_part r.prefetched_msg (record r { prefetched = false; prefetched_msg = init }) s)
      else forget_id
          (take_part r.prefetched_id (record r { routing_id_sent = true; prefetched_id = init }) s)

  abbrev pub answer_ping : Bytes → Msg → ℕ → Router → S → Router × S
  answer_ping id m now r s =
      let x = xsend (routing_frame id) r s in
      let y = xsend (create_pong (extract_ping_timestamp m)) x.1 x.2 in
      (record y.1 { conn_manager = record_heartbeat id now y.1.conn_manager }, y.2)

  unfoldable pub process_heartbeat_message : Bytes → Msg → ℕ → Router → S → Router × S
  process_heartbeat_message id m now r s =
      if is_ping m
      then answer_ping id m now r s
      else if is_pong m
      then (record r { conn_manager = mark_pong_received id now r.conn_manager }, s)
      else (r, s)

  -- The first part of a message of the pipe `p`; `again` is the call of `xrecv` in itself.
  abbrev pub begin_in :
      (Router → S → Taken × Router × S) → Msg → ℕ → ℕ → Router → S → Taken × Router × S
  begin_in again m p now r s =
      let r' = record r { prefetched_msg = (move m).0; prefetched = true; current_in = some p } in
      let h = process_heartbeat_message (peers.get_routing_id p s) (move m).1 now r' s in
      if is_heartbeat (move m).1
      then again (record h.0 { prefetched = false; current_in = none }) h.1
      else (taken (id_frame p s), record r' { routing_id_sent = true }, s)

  abbrev pub received :
      (Router → S → Taken × Router × S)
      → ℕ
      → Option (Received × Fq.Fq × S)
      → Router
      → S
      → Taken × Router × S
  received again now none r s = (broken, r, s)
  received again now (some (Fq.message m p, q, s')) r s =
      if r.more_in
      then take_part m (record r { fq = q }) s'
      else begin_in again m p now (record r { fq = q }) s'
  received again now (some (Fq.eagain, q, s')) r s = (eagain, record r { fq = q }, s')
  received again now (some (Fq.broken, q, s')) r s = (broken, record r { fq = q }, s')

  -- The fuel bounds the calls of `xrecv` in itself.
  unfoldable pub xrecv_calls : ℕ → ℕ → Router → S → Taken × Router × S
  xrecv_calls zero now r s = (broken, r, s)
  xrecv_calls (suc f) now r s =
      if r.prefetched
      then take_prefetched r s
      else received (xrecv_calls f now) now (recv_next r.fq s) r s

  unfoldable pub xrecv : ℕ → Router → S → Taken × Router × S
  xrecv now r s = xrecv_calls (suc (peers.pending s)) now r s

  abbrev pub prefetch : Option (Received × Fq.Fq × S) → Router → S → Bool × Router × S
  prefetch none r s = (false, r, s)
  prefetch (some (Fq.message m p, q, s')) r s = (
    true,
    record r {
      fq = q;
      prefetched_id = id_frame p s';
      prefetched_msg = m;
      prefetched = true;
      routing_id_sent = false;
      current_in = some p;
    },
    s',
  )
  prefetch (some (Fq.eagain, q, s')) r s = (false, record r { fq = q; prefetched_msg = init }, s')
  prefetch (some (Fq.broken, q, s')) r s = (false, record r { fq = q }, s')

  unfoldable pub xhas_in : Router → S → Bool × Router × S
  xhas_in r s =
      if r.more_in
      then (true, r, s)
      else if r.prefetched
      then (true, r, s)
      else prefetch (recv_next r.fq s) r s
