-- ===== src/Router/Runs.antt =====
-- The runs of a socket (src/core/router.cpp), and where the replies to what it receives go.
use serverlink.Prelude.{
  ℕ, ◌≡◌, ◌≢◌, refl, ap, ◌∙◌, inl, inr, arith, Bool, true, false, if◌then◌else◌, some, List, ◌∷◌,
  Bytes, bytes_eq, find, IsMap, Bool-cases,
}
use mathlib.Core.Path.{subst}
use serverlink.Prelude.Sets.{has}
use serverlink.Msg.{Msg, is_more}
use serverlink.Peers.{Peers}
use serverlink.Router.{Router, new_router, xattach_pipe, xread_activated, xpipe_terminated}
use serverlink.Router.Send.{xsend, sent}
use serverlink.Router.Receive.{xrecv, xhas_in}
use serverlink.Router.Routing.{
  routed, deliver, writable, is_some, is_message, IsIdle, send_all, send_all-routed,
}
use serverlink.Router.Peerage.{pipes, Tagged, find-Tagged}
use serverlink.Router.Invariant.{
  IsValid, Valid, IsFree, xattach_pipe-IsValid, xread_activated-IsValid, xpipe_terminated-IsValid,
}
use serverlink.Router.Table.{OutPipes, xwrite_activated}
use serverlink.Router.Settings.{RouterOption, xsetsockopt}
use serverlink.Router.Others.{xhas_in-IsValid, xwrite_activated-IsValid, xsetsockopt-IsValid}
use serverlink.Router.Steps.{xrecv-IsValid, xsend-IsValid}

module _ {S : Type 0} ⦃peers : Peers S⦄ where
  -- What happens to a socket that is new at first; a pipe is attached once.
  pub data Reached : Router → S → Type 0 where
    start : (random : ℕ) (s : S) → Reached (new_router random) s
    attach :
        (p : ℕ) (local : Bool) (now : ℕ) (r r' : Router) (s s' : S)
        → Reached r s
        → IsFree r
        → has (pipes r.out_pipes) p ≡ false
        → has r.anonymous_pipes p ≡ false
        → xattach_pipe p local now r s ≡ some (r', s')
        → Reached r' s'
    activate :
        (p now : ℕ) (r r' : Router) (s s' : S)
        → Reached r s
        → IsFree r
        → xread_activated p now r s ≡ some (r', s')
        → Reached r' s'
    terminate :
        (p now : ℕ) (r : Router) (s : S)
        → Reached r s
        → Reached (xpipe_terminated p now r s).0 (xpipe_terminated p now r s).1
    send : (m : Msg) (r : Router) (s : S) → Reached r s → Reached (xsend m r s).1 (xsend m r s).2
    receive :
        (now : ℕ) (r : Router) (s : S) → Reached r s → Reached (xrecv now r s).1 (xrecv now r s).2
    ask : (r : Router) (s : S) → Reached r s → Reached (xhas_in r s).1 (xhas_in r s).2
    write_activate :
        (p : ℕ) (m : OutPipes) (r : Router) (s : S)
        → Reached r s
        → xwrite_activated p r.out_pipes ≡ some m
        → Reached (record r { out_pipes = m }) s
    set_option :
        (o : RouterOption) (b : Bytes) (r r' : Router) (s : S)
        → Reached r s
        → xsetsockopt o b r ≡ some r'
        → Reached r' s

  Reached-IsValid : (r : Router) (s : S) → Reached r s → IsValid r s
  unfolding new_router Tagged IsMap
  Reached-IsValid _ _ (start random s) = record {
    map = tt;
    tagged = tt;
    anonymous = λ q k. ground arith;
    unique = refl;
  }
  Reached-IsValid _ _ (attach p local now r r' s s' h f a b e) =
      subst Valid e (xattach_pipe-IsValid p local now r s (Reached-IsValid r s h) f a b)
  Reached-IsValid _ _ (activate p now r r' s s' h f e) =
      subst Valid e (xread_activated-IsValid p now r s (Reached-IsValid r s h) f)
  Reached-IsValid _ _ (terminate p now r s h) =
      (xpipe_terminated-IsValid p now r s (Reached-IsValid r s h)).0
  Reached-IsValid _ _ (send m r s h) = xsend-IsValid m r s (Reached-IsValid r s h)
  Reached-IsValid _ _ (receive now r s h) = xrecv-IsValid now r s (Reached-IsValid r s h)
  Reached-IsValid _ _ (ask r s h) = xhas_in-IsValid r s (Reached-IsValid r s h)
  Reached-IsValid _ _ (write_activate p m r s h e) =
      xwrite_activated-IsValid p m r s (Reached-IsValid r s h) e
  Reached-IsValid _ _ (set_option o b r r' s h e) =
      xsetsockopt-IsValid o b r r' s (Reached-IsValid r s h) e

  entered :
      (p : ℕ) (r : Router) (s : S)
      → Reached r s
      → has (pipes r.out_pipes) p ≡ true
      → let id = peers.get_routing_id p s in
        let w = peers.check_write p s in
        ((ms : List Msg) → routed id ms r.out_pipes s ≡ (if w.0 then deliver p ms w.1 else w.1))
        × (is_some (writable id r.out_pipes s) ≡ w.0)
  entered p r s h k =
      let v = Reached-IsValid r s h in
      let (o, e, i) = find-Tagged _ p r.out_pipes v.tagged v.map k in
      let e' : find (peers.get_routing_id p s) r.out_pipes ≡ some o = e in
      (λ ms. rw (routed, e', i) refl, ground (arith, e', i, Bool-cases (peers.check_write p s).0))

  -- In every state that a socket reaches where its pipes are attached once, and each time the id to generate
  -- next and the chosen one are free: if the socket is between two messages and not raw, a message whose first
  -- part is the id of a pipe that is entered goes to this pipe. If the pipe can be written to, the socket takes
  -- all parts, and those after the first are delivered to the pipe; if not, a mandatory socket refuses the
  -- first part, and another takes all parts and drops them. So the replies to what is received from a peer go
  -- back to it, also after other peers came with the same id.
  pub send_all-get_routing_id :
      (p : ℕ) (m : Msg) (ms : List Msg) (r : Router) (s : S)
      → Reached r s
      → has (pipes r.out_pipes) p ≡ true
      → IsIdle r
      → r.raw_option ≡ false
      → r.raw_socket ≡ false
      → m.body ≡ peers.get_routing_id p s
      → is_more m ≡ true
      → is_message ms ≡ true
      → let w = peers.check_write p s in
        let x = xsend m r s in
        let y = send_all (m ∷ ms) r s in
        (w.0 ≡ true → (x.0 ≡ sent) × (y.0 ≡ true) × IsIdle y.1 × (y.2 ≡ deliver p ms w.1))
        × (w.0 ≡ false → r.mandatory ≡ true → (x.0 ≢ sent) × IsIdle x.1)
        × (w.0 ≡ false
            → r.mandatory ≡ false
            → (x.0 ≡ sent) × (y.0 ≡ true) × IsIdle y.1 × (y.2 ≡ w.1))
  send_all-get_routing_id p m ms r s h k i a b e f g =
      let (goes, usable) = entered p r s h k in
      let goes' : (routed m.body ms r.out_pipes s
          ≡ (let w = peers.check_write p s in if w.0 then deliver p ms w.1 else w.1)) =
        ap (λ id. routed id ms r.out_pipes s) e ∙ goes ms in
      let usable' : is_some (writable m.body r.out_pipes s) ≡ (peers.check_write p s).0 =
        ap (λ id. is_some (writable id r.out_pipes s)) e ∙ usable in
      let (lax, strict, refused, taken) = send_all-routed m ms r s i a b f g in
      let all : (xsend m r s).0 ≡ sent
          → ((send_all (m ∷ ms) r s).0 ≡ true)
            × IsIdle (send_all (m ∷ ms) r s).1
            × ((send_all (m ∷ ms) r s).2
                ≡ (let w = peers.check_write p s in if w.0 then deliver p ms w.1 else w.1)) =
        λ t. ((taken t).0, (taken t).1, (taken t).3 ∙ goes') in
      let can : (peers.check_write p s).0 ≡ true → (xsend m r s).0 ≡ sent =
        λ w. elim (Bool-cases r.mandatory) [ inl o ↦ (strict o).1 (usable' ∙ w) | inr o ↦ lax o ] in
      (
        λ w. (can w, (all (can w)).0, (all (can w)).1, ground (arith, (all (can w)).2, w)),
        λ w o.
            (let no : (xsend m r s).0 ≢ sent = λ t. ground (arith, (strict o).0 t, usable', w) in
              (no, (refused no).0)),
        λ w o. (lax o, (all (lax o)).0, (all (lax o)).1, ground (arith, (all (lax o)).2, w)),
      )
