-- ===== src/Router/Steps.antt =====
-- Sending and receiving keep the ids of the peers (src/core/router.cpp).
use serverlink.Prelude.{
  ℕ, zero, suc, ◌≡◌, refl, ◌∙◌, ap, inl, inr, arith, Bool, true, false, if◌then◌else◌, some, [],
  ◌∷◌, Bytes, bytes_eq, find, insert, insert-IsMap, Option-cases, Bool-cases, ◌&&◌, get_or,
}
use serverlink.Prelude.Sets.{has}
use serverlink.Msg.{Msg, init, is_more, is_routing_id}
use serverlink.Fq.{Received, recvpipe, recv_loop, drop_active}
use serverlink.Fq
use serverlink.Peers.{Peers}
use serverlink.Monitor.Heartbeat.{is_heartbeat, is_ping, is_pong, has_prefix}
use serverlink.Router.{Router, is_empty}
use serverlink.Router.Table.{OutPipe, OutPipes, lookup_out_pipe}
use serverlink.Router.Send.{xsend, send_id, send_part, write_part, without_more}
use serverlink.Router.Receive.{
  xrecv, xrecv_calls, take_prefetched, xhas_in, take_part, forget_id, received, recv_next, Taken,
}
use serverlink.Router.Receive
use serverlink.Router.Replies.{Received-cases, recv_next-ends}
use serverlink.Router.Peerage.{pipes, Tagged-find, Tagged-same, Tagged-insert}
use serverlink.Router.Invariant.{IsValid}

has-insert_known :
    (q : ℕ) (id : Bytes) (o w : OutPipe) (m : OutPipes)
    → find id m ≡ some o
    → w.pipe ≡ o.pipe
    → has (pipes (insert id w m)) q ≡ has (pipes m) q
unfolding find insert
has-insert_known q id o w [] e h = cc
has-insert_known q id o w ((j, x) ∷ m) e h = ground (arith, has-insert_known q id o w m)

module _ {S : Type 0} ⦃peers : Peers S⦄ where
  -- The peers as they were, and a pipe that may be marked as full.
  pub moved :
      (r r' : Router) (s s' : S)
      → IsValid r s
      → r'.out_pipes ≡ r.out_pipes
      → r'.anonymous_pipes ≡ r.anonymous_pipes
      → ((q : ℕ) → peers.get_routing_id q s' ≡ peers.get_routing_id q s)
      → IsValid r' s'
  moved r r' s s' v e f g =
      rw (e, f)
        (record {
          map = v.map;
          tagged = Tagged-same (λ q. peers.get_routing_id q s) _ r.out_pipes g v.tagged;
          anonymous = v.anonymous;
          unique = v.unique;
        })

  marked :
      (id : Bytes) (o w : OutPipe) (r r' : Router) (s s' : S)
      → IsValid r s
      → find id r.out_pipes ≡ some o
      → w.pipe ≡ o.pipe
      → r'.out_pipes ≡ insert id w r.out_pipes
      → r'.anonymous_pipes ≡ r.anonymous_pipes
      → ((q : ℕ) → peers.get_routing_id q s' ≡ peers.get_routing_id q s)
      → IsValid r' s'
  marked id o w r r' s s' v h k e f g =
      rw (e, f)
        (record {
          map = insert-IsMap id w r.out_pipes v.map;
          tagged =
              Tagged-same (λ q. peers.get_routing_id q s) _ _ g
                (Tagged-insert _ id w r.out_pipes
                  (ap (λ p. peers.get_routing_id p s) k ∙ Tagged-find _ id o r.out_pipes v.tagged h)
                  v.tagged);
          anonymous = λ q a. has-insert_known q id o w r.out_pipes h k ∙ v.anonymous q a;
          unique = v.unique;
        })

  send_id-IsValid :
      (m : Msg) (r : Router) (s : S) → IsValid r s → let x = send_id m r s in IsValid x.1 x.2
  unfolding send_id lookup_out_pipe
  send_id-IsValid m r s v = elim (Bool-cases (is_more m)) [
    | inr h ↦ rw h v
    | inl h ↦ elim (Option-cases (find m.body r.out_pipes)) [
      | inl e ↦ elim (Bool-cases r.mandatory) [
        | inl k ↦ rw (h, e, k) (moved r _ s s v refl refl (λ q. refl))
        | inr k ↦ rw (h, e, k) (moved r _ s s v refl refl (λ q. refl))
      ]
      | inr (o, e) ↦ elim (Bool-cases (peers.check_write o.pipe s).0) [
        | inl w ↦ rw (h, e, w) (moved r _ s _ v refl refl (λ q. peers.id-check_write o.pipe q s))
        | inr w ↦ elim (Bool-cases r.mandatory) [
          | inl k ↦
              rw (h, e, w, k)
                (marked m.body o _ r _ s _ v e refl refl refl
                  (λ q. peers.id-check_write o.pipe q s))
          | inr k ↦
              rw (h, e, w, k)
                (marked m.body o _ r _ s _ v e refl refl refl
                  (λ q. peers.id-check_write o.pipe q s))
        ]
      ]
    ]
  ]

  -- An operation that leaves the peers alone.
  pub record Stays (r : Router) (s : S) (x : Router × S) : Type 0 where
    pub out : x.0.out_pipes ≡ r.out_pipes
    pub anonymous : x.0.anonymous_pipes ≡ r.anonymous_pipes
    pub ids : (q : ℕ) → peers.get_routing_id q x.1 ≡ peers.get_routing_id q s

  write_part-Stays :
      (p : ℕ) (m : Msg) (r : Router) (s : S) → let x = write_part p m r s in Stays r s (x.1, x.2)
  write_part-Stays p m r s = elim (Bool-cases (peers.write p m s).0) [
    | inr w ↦ rw w (record {
      out = refl;
      anonymous = refl;
      ids = λ q. peers.id-rollback p q _ ∙ peers.id-write p q m s;
    })
    | inl w ↦ elim (Bool-cases (is_more m)) [
      | inl h ↦
          rw (w, h) (record { out = refl; anonymous = refl; ids = λ q. peers.id-write p q m s })
      | inr h ↦
          rw (w, h)
            (record {
              out = refl;
              anonymous = refl;
              ids = λ q. peers.id-flush p q _ ∙ peers.id-write p q m s;
            })
    ]
  ]

  send_part-Stays : (m : Msg) (r : Router) (s : S) → let x = send_part m r s in Stays r s (x.1, x.2)
  unfolding send_part
  send_part-Stays m r s =
      let m' : Msg = if r.raw_option then without_more m else m in
      let r' : Router = record r { more_out = is_more m' } in
      elim (Option-cases r.current_out) [
        | inl e ↦ rw e (record { out = refl; anonymous = refl; ids = λ q. refl })
        | inr (p, e) ↦ elim (Bool-cases (r.raw_socket && is_empty m'.body)) [
          | inl k ↦
              rw (e, k)
                (record { out = refl; anonymous = refl; ids = λ q. peers.id-terminate p q false s })
          | inr k ↦
              let w = write_part-Stays p m' (record r' { current_out = some p }) s in
              rw (e, k) (record { out = w.out; anonymous = w.anonymous; ids = w.ids })
        ]
      ]

  pub xsend-IsValid :
      (m : Msg) (r : Router) (s : S) → IsValid r s → let x = xsend m r s in IsValid x.1 x.2
  unfolding xsend
  xsend-IsValid m r s v = elim (Bool-cases r.more_out) [
    | inl k ↦
        (let w = send_part-Stays m (record r { more_out = true }) s in
          rw k (moved r _ s _ v w.out w.anonymous w.ids))
    | inr k ↦ elim (Option-cases r.current_out) [
      | inl e ↦ rw (k, e) (send_id-IsValid m r s v)
      | inr (p, e) ↦ rw (k, e) v
    ]
  ]

  ids-fq_loop :
      (f : ℕ) (fq : Fq.Fq) (s : S) (q : ℕ)
      → peers.get_routing_id q (recv_loop peers.read f fq s).2 ≡ peers.get_routing_id q s
  unfolding recv_loop
  ids-fq_loop zero fq s q = refl
  ids-fq_loop (suc f) fq s q =
      let p : ℕ = get_or fq.pipes fq.current 0 in
      elim (Option-cases (peers.read p s).0) [
        | inl e ↦ ground (
          arith,
          e,
          peers.id-read p q s,
          ids-fq_loop f (drop_active fq.current fq) (peers.read p s).1 q,
        )
        | inr (m, e) ↦ ground (arith, e, peers.id-read p q s)
      ]

  pub ids-recv_loop :
      (f : ℕ) (fq : Fq.Fq) (s : S) (q : ℕ) (x : Received × Fq.Fq × S)
      → Receive.recv_loop f fq s ≡ some x
      → peers.get_routing_id q x.2 ≡ peers.get_routing_id q s
  unfolding Receive.recv_loop recvpipe
  ids-recv_loop zero fq s q x e = ground (arith, e)
  ids-recv_loop (suc f) fq s q x e =
      let y = recvpipe peers.read fq s in
      let i = ids-fq_loop fq.active fq s q in
      elim (Received-cases y.0) [
        | inl (m, p, c) ↦ elim (Bool-cases (is_routing_id m)) [
          | inl k ↦ ground (arith, e, c, k, i, ids-recv_loop f y.1 y.2 q x)
          | inr k ↦ ground (arith, e, c, k, i)
        ]
        | inr (inl c) ↦ ground (arith, e, c, i)
        | inr (inr c) ↦ ground (arith, e, c, i)
      ]

  take_part-Stays : (m : Msg) (r : Router) (s : S) → let x = take_part m r s in Stays r s (x.1, x.2)
  take_part-Stays m r s = elim (Bool-cases (is_more m)) [
    | inl h ↦ rw h (record { out = refl; anonymous = refl; ids = λ q. refl })
    | inr h ↦ elim (Bool-cases r.terminate_current_in) [
      | inr t ↦ rw (h, t) (record { out = refl; anonymous = refl; ids = λ q. refl })
      | inl t ↦ elim (Option-cases r.current_in) [
        | inl e ↦ rw (h, t, e) (record { out = refl; anonymous = refl; ids = λ q. refl })
        | inr (p, e) ↦
            rw (h, t, e)
              (record { out = refl; anonymous = refl; ids = λ q. peers.id-terminate p q true s })
      ]
    ]
  ]

  forget_id-Stays :
      (r : Router) (s : S) (x : Taken × Router × S)
      → Stays r s (x.1, x.2)
      → Stays r s ((forget_id x).1, (forget_id x).2)
  forget_id-Stays r s (t, r', s') h = elim (Bool-cases r'.more_in) [
    | inl e ↦ rw e (record { out = h.out; anonymous = h.anonymous; ids = h.ids })
    | inr e ↦ rw e (record { out = h.out; anonymous = h.anonymous; ids = h.ids })
  ]

  if-Stays :
      (r : Router) (s : S) (b : Bool) (x y : Taken × Router × S)
      → Stays r s (x.1, x.2)
      → Stays r s (y.1, y.2)
      → let z = if b then x else y in Stays r s (z.1, z.2)
  if-Stays r s true x y h k = h
  if-Stays r s false x y h k = k

  forgotten-Stays :
      (m : Msg) (r r' : Router) (s : S)
      → r'.out_pipes ≡ r.out_pipes
      → r'.anonymous_pipes ≡ r.anonymous_pipes
      → let x = forget_id (take_part m r' s) in Stays r s (x.1, x.2)
  forgotten-Stays m r r' s e f =
      let w = take_part-Stays m r' s in
      forget_id-Stays r s (take_part m r' s)
        (record { out = w.out ∙ e; anonymous = w.anonymous ∙ f; ids = w.ids })

  take_prefetched-Stays : (r : Router) (s : S) → let x = take_prefetched r s in Stays r s (x.1, x.2)
  unfolding take_prefetched
  take_prefetched-Stays r s =
      if-Stays r s r.routing_id_sent _ _
        (forgotten-Stays r.prefetched_msg r (record r { prefetched = false; prefetched_msg = init })
          s refl refl)
        (forgotten-Stays r.prefetched_id r
          (record r { routing_id_sent = true; prefetched_id = init }) s refl refl)

  received-Stays :
      (again : Router → S → Taken × Router × S) (now : ℕ) (x : Received × Fq.Fq × S) (r : Router)
      (s : S)
      → ((q : ℕ) → peers.get_routing_id q x.2 ≡ peers.get_routing_id q s)
      → let y = received again now (some x) r s in Stays r s (y.1, y.2)
  unfolding is_heartbeat is_ping is_pong has_prefix init
  received-Stays again now (Fq.message m p, q, s') r s i = elim (Bool-cases r.more_in) [
    | inl e ↦
        (let w = take_part-Stays m (record r { fq = q; more_in = true }) s' in
          rw e (record { out = w.out; anonymous = w.anonymous; ids = λ j. w.ids j ∙ i j }))
    | inr e ↦ rw e (record { out = refl; anonymous = refl; ids = i })
  ]
  received-Stays again now (Fq.eagain, q, s') r s i = record {
    out = refl;
    anonymous = refl;
    ids = i;
  }
  received-Stays again now (Fq.broken, q, s') r s i = record {
    out = refl;
    anonymous = refl;
    ids = i;
  }

  xrecv-Stays : (now : ℕ) (r : Router) (s : S) → let x = xrecv now r s in Stays r s (x.1, x.2)
  unfolding xrecv xrecv_calls recv_next
  xrecv-Stays now r s = elim (Bool-cases r.prefetched) [
    | inl a ↦ rw a (take_prefetched-Stays (record r { prefetched = true }) s)
    | inr a ↦
        (let (x, e, _, _, _) = recv_next-ends r.fq s in
          rw (a, e)
            (received-Stays (xrecv_calls (peers.pending s) now) now x
              (record r { prefetched = false }) s
              (λ q. ids-recv_loop (suc (peers.pending s)) r.fq s q x e)))
  ]

  pub xrecv-IsValid :
      (now : ℕ) (r : Router) (s : S) → IsValid r s → let x = xrecv now r s in IsValid x.1 x.2
  xrecv-IsValid now r s v = let w = xrecv-Stays now r s in moved r _ s _ v w.out w.anonymous w.ids
