-- ===== src/Router/Replies.antt =====
-- What a socket receives, and that it comes with the id of its sender (src/core/router.cpp).
use serverlink.Prelude.{
  ℕ, zero, suc, ◌≡◌, ◌≤◌, ◌<◌, refl, ◌⊎◌, inl, inr, arith, Bool, true, false, if◌then◌else◌, Option,
  some, get_or, Option-cases, Bool-cases, ◌&&◌, not,
}
use serverlink.Msg.{Msg, init, is_more, is_routing_id, with_flags}
use serverlink.Fq.{Received, recvpipe, recv_loop, drop_active}
use serverlink.Fq
use serverlink.Peers.{Peers}
use serverlink.Peers.Pipes.{Pipes, pipe_peers, total}
use serverlink.Pipe.Queue.{YpipeBase}
use serverlink.Monitor.Heartbeat.{is_heartbeat, is_ping, is_pong, has_prefix}
use serverlink.Router.{Router}
use serverlink.Router.Receive.{
  Taken, taken, recv_next, id_frame, xrecv, xrecv_calls, take_prefetched, xhas_in,
}
use serverlink.Router.Receive

abbrev pub is_got : Received → Bool
is_got (Fq.message m p) = true
is_got Fq.eagain = false
is_got Fq.broken = false

abbrev pub is_id : Received → Bool
is_id (Fq.message m p) = is_routing_id m
is_id Fq.eagain = false
is_id Fq.broken = false

pub Received-cases :
    (x : Received)
    → ((m : Msg) × (p : ℕ) × (x ≡ Fq.message m p)) ⊎ (x ≡ Fq.eagain) ⊎ (x ≡ Fq.broken)
Received-cases (Fq.message m p) = inl (m, p, refl)
Received-cases Fq.eagain = inr (inl refl)
Received-cases Fq.broken = inr (inr refl)

module _ {S : Type 0} ⦃peers : Peers S⦄ where
  pending-fq_loop :
      (f : ℕ) (q : Fq.Fq) (s : S)
      → let x = recv_loop peers.read f q s in
        (peers.pending x.2 ≤ peers.pending s)
        × (is_got x.0 ≡ true → peers.pending x.2 < peers.pending s)
  unfolding recv_loop
  pending-fq_loop zero q s = ground arith
  pending-fq_loop (suc f) q s =
      let p : ℕ = get_or q.pipes q.current 0 in
      elim (Option-cases (peers.read p s).0) [
        | inl e ↦ ground (
          arith,
          e,
          peers.pending-read_none p s,
          pending-fq_loop f (drop_active q.current q) (peers.read p s).1,
        )
        | inr (m, e) ↦ ground (arith, e, peers.pending-read_some p m s)
      ]

  Ends : Option (Received × Fq.Fq × S) → ℕ → Type 0
  Ends o n =
      (x : Received × Fq.Fq × S) × (o ≡ some x)
      × (is_id x.0 ≡ false)
      × (peers.pending x.2 ≤ n)
      × (is_got x.0 ≡ true → peers.pending x.2 < n)

  enough :
      (f : ℕ) (q : Fq.Fq) (s : S)
      → peers.pending s < f
      → Ends (Receive.recv_loop f q s) (peers.pending s)
  unfolding Receive.recv_loop recvpipe Ends
  enough zero q s h = absurd (omega arith)
  enough (suc f) q s h =
      let x = recvpipe peers.read q s in
      let l = pending-fq_loop q.active q s in
      elim (Received-cases x.0) [
        | inl (m, p, e) ↦ elim (Bool-cases (is_routing_id m)) [
          | inl i ↦
              let (y, e', n, le, lt) = enough f x.1 x.2 (ground (arith, e, l)) in
              (y, ground (arith, e, i, e'), n, ground (arith, l), ground (arith, l))
          | inr i ↦ (x, ground (arith, e, i), ground (arith, e, i), l.0, l.1)
        ]
        | inr (inl e) ↦ (x, ground (arith, e), ground (arith, e), l.0, l.1)
        | inr (inr e) ↦ (x, ground (arith, e), ground (arith, e), l.0, l.1)
      ]

  -- Reading the next message ends, with a message that is not a routing id, with EAGAIN or with a failed
  -- assertion; by the measure `pending` of its pipes no more waits afterwards, and less after a message.
  pub recv_next-ends :
      (q : Fq.Fq) (s : S)
      → (x : Received × Fq.Fq × S) × (recv_next q s ≡ some x)
        × (is_id x.0 ≡ false)
        × (peers.pending x.2 ≤ peers.pending s)
        × (is_got x.0 ≡ true → peers.pending x.2 < peers.pending s)
  unfolding recv_next Ends
  recv_next-ends q s = enough (suc (peers.pending s)) q s (omega arith)

  -- Asking whether there is something to read, or not.
  abbrev pub asked : Bool → Router → S → Router × S
  asked true r s = let x = xhas_in r s in (x.1, x.2)
  asked false r s = (r, s)

  -- At the start of a message that waits in a pipe, also when `xhas_in` was asked first, one call of
  -- `xrecv` gives the id of the pipe as a part that more follow, and the next call the first part of the
  -- message itself, a heartbeat too; then the socket reads on from the pipe if more parts follow, and
  -- otherwise terminates the pipe if it has lost its id to another one.
  pub xrecv-id_message :
      (ask : Bool) (now : ℕ) (m : Msg) (p : ℕ) (q : Fq.Fq) (r : Router) (s s' : S)
      → r.prefetched ≡ false
      → r.more_in ≡ false
      → recv_next r.fq s ≡ some (Fq.message m p, q, s')
      → let h = asked ask r s in
        let x = xrecv now h.0 h.1 in
        let y = xrecv now x.1 x.2 in
        (x.0 ≡ taken (with_flags 1 (peers.get_routing_id p s')))
        × (y.0 ≡ taken m)
        × (y.1.fq ≡ q)
        × (y.1.more_in ≡ is_more m)
        × (y.1.prefetched ≡ false)
        × (y.2
            ≡ (if r.terminate_current_in && not (is_more m) then peers.terminate p true s' else s'))
  unfolding xrecv xrecv_calls take_prefetched is_heartbeat is_ping is_pong has_prefix init is_more
      with_flags xhas_in
  xrecv-id_message false now m p q r s s' a b e = elim (Bool-cases (is_more m)) [
    | inl h ↦ ground (arith, a, b, e, h)
    | inr h ↦ ground (arith, a, b, e, h, Bool-cases r.terminate_current_in)
  ]
  xrecv-id_message true now m p q r s s' a b e = elim (Bool-cases (is_more m)) [
    | inl h ↦ ground (arith, a, b, e, h)
    | inr h ↦ ground (arith, a, b, e, h, Bool-cases r.terminate_current_in)
  ]

module _ {Q : Type 0} (queue : YpipeBase Q) where
  -- Over the pipes of src/pipe/pipe.cpp, whatever waits in them, reading the next message ends, with a message
  -- that is not a routing id, with EAGAIN or with a failed assertion; the items that the inbound queues can
  -- still give are no more than before, and fewer after a message.
  pub recv_next-pipe_peers :
      (q : Fq.Fq) (s : Pipes Q)
      → let pipes = pipe_peers queue in
        (x : Received × Fq.Fq × Pipes Q) × (recv_next ⦃peers = pipes⦄ q s ≡ some x)
        × (is_id x.0 ≡ false)
        × (total queue x.2.pipes ≤ total queue s.pipes)
        × (is_got x.0 ≡ true → total queue x.2.pipes < total queue s.pipes)
  recv_next-pipe_peers q s = recv_next-ends ⦃peers = pipe_peers queue⦄ q s
