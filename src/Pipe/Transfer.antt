-- ===== src/Pipe/Transfer.antt =====
-- src/pipe/pipe.cpp: reading, writing, rolling back and flushing at one end of a pipe.
use serverlink.Prelude.{
  ℕ, zero, suc, ◌%◌, ◌==◌, Bool, true, false, not, ◌&&◌, ◌||◌, if◌then◌else◌, Option, none, some,
}
use serverlink.Prelude.Int.{is_pos, to_ℕ}
use serverlink.Msg.{Msg, is_more, is_routing_id, is_credential, is_delimiter}
use serverlink.Pipe.Queue.{YpipeBase}
use serverlink.Pipe.Endpoint.{
  active, delimiter_received, waiting_for_delimiter, term_ack_sent, activate_read, activate_write,
  pipe_term_ack, Pipe, send, inc64, is_active, is_waiting, is_acked, check_write,
}

module _ {Q : Type 0} (q : YpipeBase Q) where
  -- `while (_out_pipe->unwrite(&msg))`; `none` where a message without `more` is undone. The fuel
  -- is one more than the queue's size.
  unfoldable pub unwrite_all : ℕ → Q → Option Q
  unwrite_all zero out = some out
  unwrite_all (suc f) out = elim (q.unwrite out).0 [
    | none ↦ some (q.unwrite out).1
    | some m ↦ elim (is_more m) [ true ↦ unwrite_all f (q.unwrite out).1 | false ↦ none ]
  ]

  unfoldable pub rollback : Pipe Q → Option (Pipe Q)
  rollback p = elim p.out_open [
    | false ↦ some p
    | true ↦ elim (unwrite_all (suc (q.size p.out_pipe)) p.out_pipe) [
      | none ↦ none
      | some out ↦ some (record p { out_pipe = out })
    ]
  ]

  unfoldable pub flush : Pipe Q → Pipe Q
  flush p =
      if is_acked p.state
      then p
      else if p.out_open
      then (let (awake, out) = q.flush p.out_pipe in
          let p' = record p { out_pipe = out } in if awake then p' else send activate_read p')
      else p

  unfoldable pub process_delimiter : Pipe Q → Option (Pipe Q)
  unfolding rollback
  process_delimiter p = elim p.state [
    | active ↦ some (record p { state = delimiter_received })
    | waiting_for_delimiter ↦ elim (rollback p) [
      | none ↦ none
      | some p' ↦ some (record (send pipe_term_ack p') { out_open = false; state = term_ack_sent })
    ]
    | _ ↦ none
  ]

  abbrev pub can_read : Pipe Q → Bool
  can_read p = p.in_active && (is_active p.state || is_waiting p.state)

  unfoldable pub check_read : Pipe Q → Option (Bool × Pipe Q)
  unfolding process_delimiter
  check_read p =
      let (available, inq) = q.check_read p.in_pipe in
      let p' = record p { in_pipe = inq } in
      let delimited : Bool = elim (q.front inq) [ none ↦ false | some m ↦ is_delimiter m ] in
      if not (can_read p)
      then some (false, p)
      else if not available
      then some (false, record p' { in_active = false })
      else if not delimited
      then some (true, p')
      else elim (process_delimiter (record p { in_pipe = (q.read inq).1 })) [
        | none ↦ none
        | some p'' ↦ some (false, p'')
      ]

  -- The loop of `read` drops credentials. The fuel is one more than the queue's size.
  unfoldable pub fetch : ℕ → Q → Option Msg × Q
  fetch zero inq = (none, inq)
  fetch (suc f) inq = elim (q.read inq).0 [
    | none ↦ (none, (q.read inq).1)
    | some m ↦ elim (is_credential m) [
      | true ↦ fetch f (q.read inq).1
      | false ↦ (some m, (q.read inq).1)
    ]
  ]

  -- A message that is no delimiter is counted, and the writer is told at each low water mark.
  unfoldable pub count_read : Msg → Pipe Q → Pipe Q
  count_read m p =
      let read = if is_more m || is_routing_id m then p.msgs_read else inc64 p.msgs_read in
      let p' = record p { msgs_read = read } in
      if is_pos p.lwm && (read % to_ℕ p.lwm == 0) then send (activate_write read) p' else p'

  abbrev pub with_none : Option (Pipe Q) → Option (Option Msg × Pipe Q)
  with_none none = none
  with_none (some p) = some (none, p)

  -- `read` after its loop: nothing to read, a delimiter, or a message to return.
  unfoldable pub received : Option Msg → Pipe Q → Option (Option Msg × Pipe Q)
  received none p = some (none, record p { in_active = false })
  received (some m) p = elim (is_delimiter m) [
    | true ↦ with_none (process_delimiter p)
    | false ↦ some (some m, count_read m p)
  ]

  unfoldable pub read : Pipe Q → Option (Option Msg × Pipe Q)
  unfolding received
  read p =
      let (got, inq) = fetch (suc (q.size p.in_pipe)) p.in_pipe in
      if not (can_read p) then some (none, p) else received got (record p { in_pipe = inq })

  unfoldable pub write : Msg → Pipe Q → Bool × Pipe Q
  unfolding check_write
  write m p =
      let (fits, p') = check_write p in
      let written =
        if is_more m || is_routing_id m then p'.msgs_written else inc64 p'.msgs_written in
      if fits
      then (
        true,
        record p' { out_pipe = q.write p'.out_pipe m (is_more m); msgs_written = written },
      )
      else (false, p')
