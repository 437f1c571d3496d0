-- ===== src/Examples/Routers.antt =====
-- Pipes over queues, and a router with the peers `a` and `b` behind the pipes 1 and 2.
use serverlink.Prelude.{
  ◌≡◌, ◌≢◌, ◌≤◌, ◌<◌, ◌↔◌, refl, true, false, not, ◌&&◌, if◌then◌else◌, Option, none, some, List,
  [], ◌∷◌, Bytes, length, bytes_eq, find, insert,
}
use serverlink.Msg.{Msg, with_flags, is_more, is_routing_id, is_credential, is_delimiter}
use serverlink.Peers.{Peers}
use serverlink.Peers.Pipes.{Pipes, pipe_peers, total}
use serverlink.Pipe.Endpoint.{Pipe, create, check_write, compute_lwm, check_hwm}
use serverlink.Pipe.Transfer.{fetch, received, count_read, write, flush}
use serverlink.Pipe.Transfer
use serverlink.Ypipe.{Ypipe, check_read, prefetch}
use serverlink.Ypipe
use serverlink.Ypipe.Base.{ypipe}
use serverlink.Prelude.Int.{pos}
use serverlink.Fq.{Received, Fq, recvpipe, recv_loop, fetched}
use serverlink.Fq
use serverlink.Router.{Router, new_router, xattach_pipe, identify_peer, identify_by, add_peer}
use serverlink.Router.Table.{add_out_pipe, lookup_out_pipe}
use serverlink.Router.Send.{xsend, sent}
use serverlink.Router.Receive.{recv_next, xrecv, taken}
use serverlink.Router.Receive
use serverlink.Router.Routing.{
  IsIdle, send_all, send_all-routed, routed, writable, pipe_of, is_some, deliver,
}
use serverlink.Router.Replies.{recv_next-pipe_peers, xrecv-id_message, asked, is_id, is_got}
use serverlink.Router.Runs.{Reached, start, attach, send_all-get_routing_id}

abbrev pub Store : Type 0
Store = Pipes (Ypipe Msg)

instance abbrev pub store_peers : Peers Store
store_peers = pipe_peers ypipe

-- A pipe in which some messages wait.
abbrev pub holding : List Msg → Pipe (Ypipe Msg)
holding ms =
    create
      (record {
        items = ms;
        front = 0;
        w = length ms;
        f = length ms;
        r = some 0;
        c = some (length ms);
      })
      (record { items = []; front = 0; w = 0; f = 0; r = some 0; c = some 0 }) (pos 2) (pos 2) false

abbrev last_part : Bytes → Msg
last_part body = with_flags 0 body

abbrev first_part : Bytes → Msg
first_part body = with_flags 1 body

-- The peer `a` has sent its id and `hi`.
abbrev store : Store
store = record {
  pipes = holding [] ∷ holding (last_part (97 ∷ []) ∷ last_part (104 ∷ 105 ∷ []) ∷ []) ∷ [];
  ids = λ p. [];
  broken = false;
}

abbrev attached_router : Option (Router × Store)
attached_router = xattach_pipe 1 false 7 (new_router 5) store

abbrev or_new : Option (Router × Store) → Router × Store
or_new none = (new_router 5, store)
or_new (some x) = x

abbrev router : Router
router = (or_new attached_router).0

abbrev after : Store
after = (or_new attached_router).1

attached_lem : attached_router ≡ some (router, after)
unfolding create is_credential is_delimiter compute_lwm check_write check_hwm fetch received
    count_read Transfer.read Ypipe.read check_read prefetch xattach_pipe identify_peer identify_by
    add_peer add_out_pipe lookup_out_pipe new_router find with_flags
attached_lem = refl

reached : Reached router after
unfolding new_router find
reached =
    attach 1 false 7 (new_router 5) router store after (start 5 store)
      (record { generated = refl; chosen = refl }) refl refl attached_lem

abbrev parts : List Msg
parts = first_part (1 ∷ []) ∷ last_part (2 ∷ []) ∷ []

send_all-routed_example :
    let x = xsend (first_part (97 ∷ [])) router after in
    let y = send_all (first_part (97 ∷ []) ∷ parts) router after in
    (router.mandatory ≡ false → x.0 ≡ sent)
    × (router.mandatory ≡ true
        → (x.0 ≡ sent) ↔ (is_some (writable (97 ∷ []) router.out_pipes after) ≡ true))
    × (x.0 ≢ sent
        → IsIdle x.1 × ((id : Bytes) → pipe_of id x.1.out_pipes ≡ pipe_of id router.out_pipes))
    × (x.0 ≡ sent
        → (y.0 ≡ true)
          × IsIdle y.1
          × ((id : Bytes) → pipe_of id y.1.out_pipes ≡ pipe_of id router.out_pipes)
          × (y.2 ≡ routed (97 ∷ []) parts router.out_pipes after))
unfolding create is_credential is_delimiter compute_lwm check_write check_hwm fetch received
    count_read Transfer.read Ypipe.read check_read prefetch xattach_pipe identify_peer identify_by
    add_peer add_out_pipe lookup_out_pipe new_router find with_flags is_more
send_all-routed_example =
    send_all-routed (first_part (97 ∷ [])) parts router after (record { out = refl; more = refl })
      refl refl refl refl

recv_next-pipe_peers_example :
    (x : Received × Fq × Store) × (recv_next router.fq after ≡ some x)
    × (is_id x.0 ≡ false)
    × (total ypipe x.2.pipes ≤ total ypipe after.pipes)
    × (is_got x.0 ≡ true → total ypipe x.2.pipes < total ypipe after.pipes)
recv_next-pipe_peers_example = recv_next-pipe_peers ypipe router.fq after

-- What is read, and the state after it.
abbrev read_next : Option (Received × Fq × Store)
read_next = recv_next router.fq after

abbrev queue : Fq
queue = elim read_next [ none ↦ Fq.new_fq | some x ↦ x.1 ]

abbrev read : Store
read = elim read_next [ none ↦ store | some x ↦ x.2 ]

xrecv-id_message_example :
    let h = asked true router after in
    let x = xrecv 8 h.0 h.1 in
    let y = xrecv 8 x.1 x.2 in
    (x.0 ≡ taken (first_part (read.ids 1)))
    × (y.0 ≡ taken (last_part (104 ∷ 105 ∷ [])))
    × (y.1.fq ≡ queue)
    × (y.1.more_in ≡ is_more (last_part (104 ∷ 105 ∷ [])))
    × (y.1.prefetched ≡ false)
    × (y.2 ≡ (
        if router.terminate_current_in && not (is_more (last_part (104 ∷ 105 ∷ [])))
        then read
        else read))
unfolding create is_credential is_delimiter compute_lwm check_write check_hwm fetch received
    count_read Transfer.read Ypipe.read check_read prefetch xattach_pipe identify_peer identify_by
    add_peer add_out_pipe lookup_out_pipe new_router find with_flags recv_next Receive.recv_loop
    recvpipe recv_loop fetched is_more is_routing_id Fq.attach Fq.new_fq
xrecv-id_message_example =
    xrecv-id_message true 8 (last_part (104 ∷ 105 ∷ [])) 1 queue router after read refl refl refl

send_all-get_routing_id_example :
    let w = store_peers.check_write 1 after in
    let x = xsend (first_part (97 ∷ [])) router after in
    let y = send_all (first_part (97 ∷ []) ∷ parts) router after in
    (w.0 ≡ true → (x.0 ≡ sent) × (y.0 ≡ true) × IsIdle y.1 × (y.2 ≡ deliver 1 parts w.1))
    × (w.0 ≡ false → router.mandatory ≡ true → (x.0 ≢ sent) × IsIdle x.1)
    × (w.0 ≡ false
        → router.mandatory ≡ false
        → (x.0 ≡ sent) × (y.0 ≡ true) × IsIdle y.1 × (y.2 ≡ w.1))
unfolding create is_credential is_delimiter compute_lwm check_write check_hwm fetch received
    count_read Transfer.read Ypipe.read check_read prefetch xattach_pipe identify_peer identify_by
    add_peer add_out_pipe lookup_out_pipe new_router find with_flags insert is_more
send_all-get_routing_id_example =
    send_all-get_routing_id 1 (first_part (97 ∷ [])) parts router after reached refl
      (record { out = refl; more = refl }) refl refl refl refl refl
