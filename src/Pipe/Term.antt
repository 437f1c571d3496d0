-- ===== src/Pipe/Term.antt =====
-- src/pipe/pipe.cpp: the termination handshake, hiccups and the messages sent on disconnection.
use serverlink.Prelude.{
  ℕ, zero, suc, Bool, true, false, not, ◌&&◌, if◌then◌else◌, Option, none, some, Bytes, [], ◌∷◌,
}
use serverlink.Msg.{is_more, init_delimiter, with_flags}
use serverlink.Pipe.Queue.{YpipeBase}
use serverlink.Pipe.Endpoint.{
  State, active, delimiter_received, waiting_for_delimiter, term_ack_sent, term_req_sent1,
  term_req_sent2, hiccup_to, pipe_term, pipe_term_ack, hiccuped, pipe_terminated, destroyed, Pipe,
  send, sub64, is_active,
}
use serverlink.Pipe.Transfer.{rollback, flush}

abbrev is_nil : Bytes → Bool
is_nil [] = true
is_nil (x ∷ xs) = false

module _ {Q : Type 0} (q : YpipeBase Q) where
  abbrev drop_out : State → Pipe Q → Pipe Q
  drop_out s p = record (send pipe_term_ack p) { out_open = false; state = s }

  unfoldable pub process_pipe_term : Pipe Q → Option (Pipe Q)
  process_pipe_term p = elim p.state [
    | active ↦ elim p.delay [
      | true ↦ some (record p { state = waiting_for_delimiter })
      | false ↦ some (drop_out term_ack_sent p)
    ]
    | delimiter_received ↦ some (drop_out term_ack_sent p)
    | term_req_sent1 ↦ some (drop_out term_req_sent2 p)
    | _ ↦ none
  ]

  -- The messages that are still in the inbound queue are dropped. The fuel is one more than its
  -- size.
  unfoldable pub drain : ℕ → Q → Q
  drain zero inq = inq
  drain (suc f) inq = elim (q.read inq).0 [
    | none ↦ (q.read inq).1
    | some m ↦ drain f (q.read inq).1
  ]

  unfoldable pub process_pipe_term_ack : Pipe Q → Option (Pipe Q)
  unfolding drain
  process_pipe_term_ack p =
      let told = send pipe_terminated p in
      let emptied = if p.conflate then p.in_pipe else drain (suc (q.size p.in_pipe)) p.in_pipe in
      elim p.state [
        | term_req_sent1 ↦ some (
            send destroyed
              (record (send pipe_term_ack told) { out_open = false; in_pipe = emptied }))
        | term_ack_sent ↦ some (send destroyed (record told { in_pipe = emptied }))
        | term_req_sent2 ↦ some (send destroyed (record told { in_pipe = emptied }))
        | _ ↦ none
      ]

  -- Unfinished messages are dropped and the delimiter is written, whatever the water marks say.
  unfoldable pub write_delimiter : Pipe Q → Option (Pipe Q)
  unfolding rollback flush
  write_delimiter p = elim p.out_open [
    | false ↦ some p
    | true ↦ elim (rollback q p) [
      | none ↦ none
      | some p' ↦ some (flush q (record p' { out_pipe = q.write p'.out_pipe init_delimiter false }))
    ]
  ]

  abbrev request : Pipe Q → Option (Pipe Q)
  request p =
      write_delimiter (record (send pipe_term p) { state = term_req_sent1; out_active = false })

  unfoldable pub terminate : Bool → Pipe Q → Option (Pipe Q)
  unfolding write_delimiter
  terminate delay p0 =
      let p = record p0 { delay = delay } in
      elim p.state [
        | term_req_sent1 ↦ some p
        | term_req_sent2 ↦ some p
        | term_ack_sent ↦ some p
        | active ↦ request p
        | delimiter_received ↦ request p
        | waiting_for_delimiter ↦ elim delay [
          | true ↦ write_delimiter (record p { out_active = false })
          | false ↦ elim (rollback q p) [
            | none ↦ none
            | some p' ↦ some (record (drop_out term_ack_sent p') { out_active = false })
          ]
        ]
      ]

  -- A new inbound queue; the peer drops the old one.
  unfoldable pub hiccup : Q → Pipe Q → Pipe Q
  hiccup fresh p =
      if is_active p.state
      then send (hiccup_to fresh) (record p { in_pipe = fresh; in_active = true })
      else p

  -- The complete messages that the reader never took are taken off the count.
  unfoldable pub uncount : ℕ → Q → ℕ → ℕ
  uncount zero out written = written
  uncount (suc f) out written = elim (q.read out).0 [
    | none ↦ written
    | some m ↦ uncount f (q.read out).1 (if is_more m then written else sub64 written 1)
  ]

  unfoldable pub process_hiccup : Q → Pipe Q → Option (Pipe Q)
  unfolding uncount
  process_hiccup fresh p =
      let out = (q.flush p.out_pipe).1 in
      let p' = record p {
        out_pipe = fresh;
        out_active = true;
        msgs_written = uncount (suc (q.size out)) out p.msgs_written;
      } in
      if not p.out_open then none else some (if is_active p.state then send hiccuped p' else p')

  unfoldable pub send_disconnect_msg : Pipe Q → Option (Pipe Q)
  unfolding rollback flush
  send_disconnect_msg p = elim (not (is_nil p.disconnect_msg) && p.out_open) [
    | false ↦ some p
    | true ↦ elim (rollback q p) [
      | none ↦ none
      | some p' ↦
          let written = record p' {
            out_pipe = q.write p'.out_pipe (with_flags 0 p.disconnect_msg) false;
          } in
          some (record (flush q written) { disconnect_msg = [] })
    ]
  ]

  unfoldable pub send_hiccup_msg : Bytes → Pipe Q → Pipe Q
  unfolding flush
  send_hiccup_msg hiccup_msg p =
      if not (is_nil hiccup_msg) && p.out_open
      then flush q (record p { out_pipe = q.write p.out_pipe (with_flags 0 hiccup_msg) false })
      else p
