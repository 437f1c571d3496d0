-- ===== src/Pipe/Ops.antt =====
-- Every call that the rest of the program can make on one end of a pipe, other than the delivery of
-- the two commands of the handshake; with what each leaves of the handshake's state.
use serverlink.Prelude.{
  ℕ, suc, ◌≡◌, refl, Bool, true, Option, none, some, arith, Bytes, [], Bool-cases, inl, inr,
}
use serverlink.Prelude.Int.{ℤ}
use serverlink.Msg.{Msg, is_delimiter}
use serverlink.Pipe.Queue.{YpipeBase}
use serverlink.Pipe.Endpoint.{
  Pipe, process_activate_read, process_activate_write, process_pipe_hwm, send_hwms_to_peer,
  set_nodelay, set_hwms, set_hwms_boost, set_disconnect_msg,
}
use serverlink.Pipe.Transfer.{
  rollback, flush, process_delimiter, check_read, read, received, with_none, count_read, fetch,
  can_read, write,
}
use serverlink.Pipe.Term.{terminate, hiccup, process_hiccup, send_disconnect_msg, send_hiccup_msg}
use serverlink.Pipe.Handshake.{sent_term, sent_ack, got_term, IsOrderly}

pub data Op (Q : Type 0) : Type 0 where
  op_terminate : Bool → Op Q
  op_read op_check_read : Op Q
  op_write : Msg → Op Q
  op_flush op_rollback : Op Q
  op_activate_read : Op Q
  op_activate_write : ℕ → Op Q
  op_hiccup op_process_hiccup : Q → Op Q
  op_pipe_hwm op_set_hwms op_set_boost op_send_hwms : ℤ → ℤ → Op Q
  op_nodelay : Op Q
  op_set_disconnect : Bytes → Op Q
  op_send_disconnect : Op Q
  op_send_hiccup : Bytes → Op Q
  op_peer : Q → Q → Op Q

module _ {Q : Type 0} (q : YpipeBase Q) where
  abbrev pub second : {A : Type 0} → Option (A × Pipe Q) → Option (Pipe Q)
  second none = none
  second (some (a, p)) = some p

  -- `op_peer` is whatever the other end does to the two queues meanwhile.
  unfoldable pub apply : Op Q → Pipe Q → Option (Pipe Q)
  apply (op_terminate d) p = terminate q d p
  apply op_read p = second (read q p)
  apply op_check_read p = second (check_read q p)
  apply (op_write m) p = some (write q m p).1
  apply op_flush p = some (flush q p)
  apply op_rollback p = rollback q p
  apply op_activate_read p = some (process_activate_read p)
  apply (op_activate_write n) p = some (process_activate_write n p)
  apply (op_hiccup fresh) p = some (hiccup q fresh p)
  apply (op_process_hiccup fresh) p = process_hiccup q fresh p
  apply (op_pipe_hwm i o) p = some (process_pipe_hwm i o p)
  apply (op_set_hwms i o) p = some (set_hwms i o p)
  apply (op_set_boost i o) p = some (set_hwms_boost i o p)
  apply (op_send_hwms i o) p = some (send_hwms_to_peer i o p)
  apply op_nodelay p = some (set_nodelay p)
  apply (op_set_disconnect b) p = some (set_disconnect_msg b p)
  apply op_send_disconnect p = send_disconnect_msg q p
  apply (op_send_hiccup b) p = some (send_hiccup_msg q b p)
  apply (op_peer inq outq) p = some (record p { in_pipe = inq; out_pipe = outq })

  -- What a call of this end's user leaves of the handshake: it learns nothing of the peer, takes
  -- nothing back, and keeps its books in order.
  pub record Local (p p' : Pipe Q) : Type 0 where
    pub got : got_term p'.state ≡ got_term p.state
    pub term : sent_term p.state ≡ true → sent_term p'.state ≡ true
    pub ack : sent_ack p.state ≡ true → sent_ack p'.state ≡ true
    pub orderly : IsOrderly p'

  abbrev pub LocalTo : Pipe Q → Option (Pipe Q) → Type 0
  LocalTo p none = Unit
  LocalTo p (some p') = Local p p'

  rollback-Local : (p : Pipe Q) → IsOrderly p → LocalTo p (rollback q p)
  unfolding rollback
  rollback-Local p v = ground arith

  process_delimiter-Local : (p : Pipe Q) → IsOrderly p → LocalTo p (process_delimiter q p)
  unfolding process_delimiter
  process_delimiter-Local p v = ground arith

  terminate-Local : (d : Bool) (p : Pipe Q) → IsOrderly p → LocalTo p (terminate q d p)
  unfolding terminate
  terminate-Local d p v = ground arith

  write-Local : (m : Msg) (p : Pipe Q) → IsOrderly p → Local p (write q m p).1
  unfolding write
  write-Local m p v = ground arith

  flush-Local : (p : Pipe Q) → IsOrderly p → Local p (flush q p)
  unfolding flush
  flush-Local p v = ground arith

  notices-Local :
      (p : Pipe Q) (n : ℕ) (inq : Q)
      → IsOrderly p
      → Local p (process_activate_read p)
        × Local p (process_activate_write n p)
        × Local p (hiccup q inq p)
        × LocalTo p (process_hiccup q inq p)
  unfolding process_activate_read process_activate_write hiccup process_hiccup
  notices-Local p n inq v = (ground arith, ground arith, ground arith, ground arith)

  messages-Local :
      (p : Pipe Q) (b : Bytes)
      → IsOrderly p
      → LocalTo p (send_disconnect_msg q p) × Local p (send_hiccup_msg q b p)
  unfolding send_disconnect_msg send_hiccup_msg
  messages-Local p b v = (ground arith, ground arith)

  LocalTo-from :
      (p p' : Pipe Q) (r : Option (Pipe Q)) → p'.state ≡ p.state → LocalTo p' r → LocalTo p r
  LocalTo-from p p' none e h = tt
  LocalTo-from p p' (some r) e h = record {
    got = ground arith;
    term = ground arith;
    ack = ground arith;
    orderly = h.orderly;
  }

  second-with_none : (r : Option (Pipe Q)) → second (with_none q r) ≡ r
  second-with_none none = refl
  second-with_none (some p) = refl

  received-Local : (g : Option Msg) (p : Pipe Q) → IsOrderly p → LocalTo p (second (received q g p))
  unfolding received
  received-Local none p v = ground arith
  received-Local (some m) p v = elim (Bool-cases (is_delimiter m)) [
    | inl d ↦
        rw (d, received, second-with_none (process_delimiter q p)) (process_delimiter-Local p v)
    | inr d ↦ rw (d, received) (unfold count_read in ground arith)
  ]

  in_moves : (p : Pipe Q) (inq : Q) → IsOrderly p → IsOrderly (record p { in_pipe = inq })
  in_moves p inq v = record { terms = v.terms; acks = v.acks; open_until_ack = v.open_until_ack }

  read-Local : (p : Pipe Q) → IsOrderly p → LocalTo p (second (read q p))
  unfolding read
  read-Local p v = elim (Bool-cases (can_read q p)) [
    | inl able ↦
        let inq = (fetch q (suc (q.size p.in_pipe)) p.in_pipe).1 in
        rw (able, read)
          (LocalTo-from p (record p { in_pipe = inq }) _ refl
            (received-Local (fetch q (suc (q.size p.in_pipe)) p.in_pipe).0
              (record p { in_pipe = inq }) (in_moves p inq v)))
    | inr unable ↦ rw (unable, read) (ground arith)
  ]

  check_read-Local : (p : Pipe Q) → IsOrderly p → LocalTo p (second (check_read q p))
  unfolding check_read
  check_read-Local p v = ground arith

  others-Local :
      (p : Pipe Q) (i o : ℤ) (b : Bytes) (inq outq : Q)
      → IsOrderly p
      → Local p (process_pipe_hwm i o p)
        × Local p (set_hwms i o p)
        × Local p (set_hwms_boost i o p)
        × Local p (send_hwms_to_peer i o p)
        × Local p (set_nodelay p)
        × Local p (set_disconnect_msg b p)
        × Local p (record p { in_pipe = inq; out_pipe = outq })
  unfolding process_pipe_hwm set_hwms set_hwms_boost send_hwms_to_peer set_nodelay
      set_disconnect_msg
  others-Local p i o b inq outq v = (
    ground arith,
    ground arith,
    ground arith,
    ground arith,
    ground arith,
    ground arith,
    ground arith,
  )

  pub apply-Local : (op : Op Q) (p : Pipe Q) → IsOrderly p → LocalTo p (apply op p)
  unfolding apply
  apply-Local (op_terminate d) p v = terminate-Local d p v
  apply-Local op_read p v = read-Local p v
  apply-Local op_check_read p v = check_read-Local p v
  apply-Local (op_write m) p v = write-Local m p v
  apply-Local op_flush p v = flush-Local p v
  apply-Local op_rollback p v = rollback-Local p v
  apply-Local op_activate_read p v = (notices-Local p 0 p.in_pipe v).0
  apply-Local (op_activate_write n) p v = (notices-Local p n p.in_pipe v).1
  apply-Local (op_hiccup fresh) p v = (notices-Local p 0 fresh v).2
  apply-Local (op_process_hiccup fresh) p v = (notices-Local p 0 fresh v).3
  apply-Local (op_pipe_hwm i o) p v = (others-Local p i o [] p.in_pipe p.in_pipe v).0
  apply-Local (op_set_hwms i o) p v = (others-Local p i o [] p.in_pipe p.in_pipe v).1
  apply-Local (op_set_boost i o) p v = (others-Local p i o [] p.in_pipe p.in_pipe v).2
  apply-Local (op_send_hwms i o) p v = (others-Local p i o [] p.in_pipe p.in_pipe v).3
  apply-Local op_nodelay p v = (others-Local p p.hwm p.hwm [] p.in_pipe p.in_pipe v).4
  apply-Local (op_set_disconnect b) p v = (others-Local p p.hwm p.hwm b p.in_pipe p.in_pipe v).5
  apply-Local op_send_disconnect p v = (messages-Local p [] v).0
  apply-Local (op_send_hiccup b) p v = (messages-Local p b v).1
  apply-Local (op_peer inq outq) p v = (others-Local p p.hwm p.hwm [] inq outq v).6

  pub LocalTo-some :
      (p : Pipe Q) (r : Option (Pipe Q)) (p' : Pipe Q) → r ≡ some p' → LocalTo p r → Local p p'
  LocalTo-some p r p' e h = rw e at h

  -- Every call on an end that fails no assertion keeps its books in order: the state tells which of
  -- the two commands of the handshake went out, each at most once, and that the outbound queue was
  -- given up with the acknowledgement and not before. Whether the peer's request was taken stays as it
  -- was.
  pub apply-IsOrderly :
      (op : Op Q) (p p' : Pipe Q)
      → IsOrderly p
      → apply op p ≡ some p'
      → IsOrderly p' × (got_term p'.state ≡ got_term p.state)
  apply-IsOrderly op p p' v e =
      let l = LocalTo-some p (apply op p) p' e (apply-Local op p v) in (l.orderly, l.got)
