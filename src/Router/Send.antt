-- ===== src/Router/Send.antt =====
-- Sending (src/core/router.cpp): the first part of a message names the peer, the parts that follow go to
-- the pipe of the peer, which is flushed after the last one.
use serverlink.Prelude.{
  ℕ, ◌-◌, Bool, true, false, not, ◌&&◌, if◌then◌else◌, Option, none, some, Bytes, bytes_eq, insert,
}
use serverlink.Msg.{Msg, is_more, with_flags}
use serverlink.Peers.{Peers}
use serverlink.Monitor.Heartbeat.{create_ping}
use serverlink.Monitor.Stats.{mark_ping_sent}
use serverlink.Router.{Router, is_empty}
use serverlink.Router.Table.{OutPipe, lookup_out_pipe, any_of_out_pipes}

-- What `xsend` returns: 0, EAGAIN, EHOSTUNREACH, or a failed assertion.
pub data Sent : Type 0 where
  sent : Sent
  eagain : Sent
  ehostunreach : Sent
  broken : Sent

-- The first part of the message for a peer.
abbrev pub routing_frame : Bytes → Msg
routing_frame id = with_flags 1 id

-- `reset_flags (more)`
abbrev pub without_more : Msg → Msg
without_more m = if is_more m then record m { flags = m.flags - 1 } else m

module _ {S : Type 0} ⦃peers : Peers S⦄ where
  -- The pipe `o` of the peer `id` cannot be written to.
  abbrev pub refused : Bytes → OutPipe → Router → S → Sent × Router × S
  refused id o r s =
      let r' = record r {
        out_pipes = insert id (record o { active = false }) r.out_pipes;
        current_out = none;
      } in
      if r.mandatory
      then (
        if not (peers.check_hwm o.pipe s) then eagain else ehostunreach,
        record r' { more_out = false },
        s,
      )
      else (sent, record r' { more_out = true }, s)

  abbrev pub route_to : Bytes → OutPipe → Router → S → Sent × Router × S
  route_to id o r s =
      if (peers.check_write o.pipe s).0
      then (
        sent,
        record r { more_out = true; current_out = some o.pipe },
        (peers.check_write o.pipe s).1,
      )
      else refused id o r (peers.check_write o.pipe s).1

  -- A message of one part is dropped.
  unfoldable pub send_id : Msg → Router → S → Sent × Router × S
  send_id m r s =
      if not (is_more m) then (sent, r, s) else elim (lookup_out_pipe m.body r.out_pipes) [
        | some o ↦ route_to m.body o r s
        | none ↦
            if r.mandatory
            then (ehostunreach, record r { more_out = false }, s)
            else (sent, record r { more_out = true }, s)
      ]

  abbrev pub write_part : ℕ → Msg → Router → S → Sent × Router × S
  write_part p m r s =
      if not (peers.write p m s).0
      then (sent, record r { current_out = none }, peers.rollback p (peers.write p m s).1)
      else if is_more m
      then (sent, r, (peers.write p m s).1)
      else (sent, record r { current_out = none }, peers.flush p (peers.write p m s).1)

  unfoldable pub send_part : Msg → Router → S → Sent × Router × S
  send_part m r s =
      let m' = if r.raw_option then without_more m else m in
      let r' = record r { more_out = is_more m' } in
      elim r.current_out [
        | none ↦ (sent, r', s)
        | some p ↦
            if r.raw_socket && is_empty m'.body
            then (sent, record r' { current_out = none }, peers.terminate p false s)
            else write_part p m' r' s
      ]

  unfoldable pub xsend : Msg → Router → S → Sent × Router × S
  xsend m r s =
      if r.more_out
      then send_part m r s
      else elim r.current_out [ none ↦ send_id m r s | some p ↦ (broken, r, s) ]

  unfoldable pub rollback : Router → S → Router × S
  rollback r s = elim r.current_out [
    | none ↦ (r, s)
    | some p ↦ (record r { current_out = none; more_out = false }, peers.rollback p s)
  ]

  unfoldable pub xhas_out : Router → S → Bool
  xhas_out r s =
      if not r.mandatory then true else any_of_out_pipes (λ p. peers.check_hwm p s) r.out_pipes

  -- `SL_POLLOUT`, or EHOSTUNREACH.
  unfoldable pub get_peer_state : Bytes → Router → S → Option Bool
  get_peer_state id r s = elim (lookup_out_pipe id r.out_pipes) [
    | none ↦ none
    | some o ↦ some (peers.check_hwm o.pipe s)
  ]

  abbrev pub then_send : (Router → Router) → Msg → Sent × Router × S → Sent × Router × S
  then_send mark m (sent, r, s) =
      let x = xsend m r s in elim x.0 [ sent ↦ (sent, mark x.1, x.2) | _ ↦ x ]
  then_send mark m (eagain, r, s) = (eagain, r, s)
  then_send mark m (ehostunreach, r, s) = (ehostunreach, r, s)
  then_send mark m (broken, r, s) = (broken, r, s)

  unfoldable pub send_ping : Bytes → ℕ → Router → S → Sent × Router × S
  send_ping id now r s =
      then_send (λ r'. record r' { conn_manager = mark_ping_sent id now r'.conn_manager })
        (create_ping now) (xsend (routing_frame id) r s)
