-- ===== src/Pipe/Endpoint.antt =====
-- src/pipe/pipe.hpp, and the reading and writing of src/pipe/pipe.cpp: one end of a pair of pipes.
-- Commands to the peer and calls of the event sink are recorded in `sent`, the last one first.
-- `none` is a failed `slk_assert`. Peer, sink and routing identifiers are set once and not modelled.
use serverlink.Prelude.{
  ℕ, ◌+◌, ◌-◌, ◌%◌, ◌^◌, ◌==◌, leb, Bool, true, false, not, ◌&&◌, ◌||◌, if◌then◌else◌, List, [],
  ◌∷◌, Bytes,
}
use serverlink.Prelude.Int.{ℤ, pos, is_pos, to_ℕ, half, ◌+ℤ◌, max_zero, negsuc}

pub data State : Type 0 where
  active delimiter_received waiting_for_delimiter : State
  term_ack_sent term_req_sent1 term_req_sent2 : State

pub data Effect (Q : Type 0) : Type 0 where
  activate_read : Effect Q
  activate_write : ℕ → Effect Q
  hiccup_to : Q → Effect Q
  pipe_term : Effect Q
  pipe_term_ack : Effect Q
  pipe_hwm : ℤ → ℤ → Effect Q
  read_activated : Effect Q
  write_activated : Effect Q
  hiccuped : Effect Q
  pipe_terminated : Effect Q
  destroyed : Effect Q

-- `out_open` is false once `_out_pipe` is NULL; the queue itself is then the peer's alone.
pub record Pipe (Q : Type 0) : Type 0 where
  pub in_pipe : Q
  pub out_pipe : Q
  pub out_open : Bool
  pub in_active : Bool
  pub out_active : Bool
  pub hwm : ℤ
  pub lwm : ℤ
  pub in_hwm_boost : ℤ
  pub out_hwm_boost : ℤ
  pub msgs_read : ℕ
  pub msgs_written : ℕ
  pub peers_msgs_read : ℕ
  pub state : State
  pub delay : Bool
  pub conflate : Bool
  pub disconnect_msg : Bytes
  pub sent : List (Effect Q)

abbrev pub u64 : ℕ
u64 = 2 ^ 64

abbrev pub inc64 : ℕ → ℕ
inc64 a = (a + 1) % 2 ^ 64

abbrev pub sub64 : ℕ → ℕ → ℕ
sub64 a b = (a + 2 ^ 64 - b) % 2 ^ 64

abbrev pub is_active : State → Bool
is_active active = true
is_active _ = false

abbrev pub is_waiting : State → Bool
is_waiting waiting_for_delimiter = true
is_waiting _ = false

abbrev pub is_acked : State → Bool
is_acked term_ack_sent = true
is_acked _ = false

unfoldable pub compute_lwm : ℤ → ℤ
compute_lwm hwm = half (hwm +ℤ pos 1)

module _ {Q : Type 0} where
  abbrev pub send : Effect Q → Pipe Q → Pipe Q
  send e p = record p { sent = e ∷ p.sent }

  -- The constructor, over a queue for each direction.
  unfoldable pub create : Q → Q → ℤ → ℤ → Bool → Pipe Q
  unfolding compute_lwm
  create inpipe outpipe inhwm outhwm conflate = record {
    in_pipe = inpipe;
    out_pipe = outpipe;
    out_open = true;
    in_active = true;
    out_active = true;
    hwm = outhwm;
    lwm = compute_lwm inhwm;
    in_hwm_boost = negsuc 0;
    out_hwm_boost = negsuc 0;
    msgs_read = 0;
    msgs_written = 0;
    peers_msgs_read = 0;
    state = active;
    delay = true;
    conflate = conflate;
    disconnect_msg = [];
    sent = [];
  }

  unfoldable pub check_hwm : Pipe Q → Bool
  check_hwm p = not (is_pos p.hwm && leb (to_ℕ p.hwm) (sub64 p.msgs_written p.peers_msgs_read))

  unfoldable pub check_write : Pipe Q → Bool × Pipe Q
  unfolding check_hwm
  check_write p =
      if not p.out_active || not (is_active p.state)
      then (false, p)
      else if check_hwm p
      then (true, p)
      else (false, record p { out_active = false })

  unfoldable pub set_hwms : ℤ → ℤ → Pipe Q → Pipe Q
  unfolding compute_lwm
  set_hwms inhwm outhwm p =
      let boosted_in = inhwm +ℤ max_zero p.in_hwm_boost in
      let boosted_out = outhwm +ℤ max_zero p.out_hwm_boost in
      let is_zero : ℤ → Bool = λ b. elim b [ pos n ↦ n == 0 | negsuc n ↦ false ] in
      let in' = if not (is_pos inhwm) || is_zero p.in_hwm_boost then pos 0 else boosted_in in
      let out = if not (is_pos outhwm) || is_zero p.out_hwm_boost then pos 0 else boosted_out in
      record p { lwm = compute_lwm in'; hwm = out }

  unfoldable pub set_hwms_boost : ℤ → ℤ → Pipe Q → Pipe Q
  set_hwms_boost inhwmboost outhwmboost p = record p {
    in_hwm_boost = inhwmboost;
    out_hwm_boost = outhwmboost;
  }

  unfoldable pub send_hwms_to_peer : ℤ → ℤ → Pipe Q → Pipe Q
  send_hwms_to_peer inhwm outhwm p = send (pipe_hwm inhwm outhwm) p

  unfoldable pub process_pipe_hwm : ℤ → ℤ → Pipe Q → Pipe Q
  unfolding set_hwms
  process_pipe_hwm inhwm outhwm p = set_hwms inhwm outhwm p

  unfoldable pub process_activate_read : Pipe Q → Pipe Q
  process_activate_read p =
      if not p.in_active && (is_active p.state || is_waiting p.state)
      then send read_activated (record p { in_active = true })
      else p

  unfoldable pub process_activate_write : ℕ → Pipe Q → Pipe Q
  process_activate_write msgs_read p =
      let p' = record p { peers_msgs_read = msgs_read } in
      if not p.out_active && is_active p.state
      then send write_activated (record p' { out_active = true })
      else p'

  unfoldable pub set_nodelay : Pipe Q → Pipe Q
  set_nodelay p = record p { delay = false }

  unfoldable pub set_disconnect_msg : Bytes → Pipe Q → Pipe Q
  set_disconnect_msg bytes p = record p { disconnect_msg = bytes }
