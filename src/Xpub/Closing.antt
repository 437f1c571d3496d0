-- ===== src/Xpub/Closing.antt =====
-- What becomes of a publishing socket when a pipe has terminated (src/core/xpub.cpp).
use serverlink.Prelude.{
  ℕ, ◌≡◌, ◌⊎◌, ap, arith, true, false, not, ◌&&◌, if◌then◌else◌, Option, none, List, [], ◌∷◌, ◌++◌,
  append-nil, append_assoc, map, Bytes, Bool-cases, inl, inr,
}
use serverlink.Msg.{Msg}
use serverlink.Dist
use serverlink.Xpub.{Xpub, notification, send_unsubscriptions, xpipe_terminated, is_last}
use serverlink.Xpub.Table.{Subscriptions}

-- The notifications for topics that nobody is subscribed to any more, and that no pipe asked for each.
abbrev pub cancellations : List Bytes → List Msg
cancellations qs = map (λ q. notification (record { subscribe = false; topic = q })) qs

abbrev pub no_pipes : List Bytes → List (Option ℕ)
no_pipes qs = map (λ q. none) qs

module _ {T : Type 0} where
  -- What is sent to the application for some topics.
  pub record Sends (qs : List Bytes) (x y : Xpub T) : Type 0 where
    pub pending : y.pending ≡ (if x.is_pub then x.pending else x.pending ++ cancellations qs)
    pub pending_pipes :
        y.pending_pipes
        ≡ (if not x.is_pub && x.manual then x.pending_pipes ++ no_pipes qs else x.pending_pipes)
    pub manual : y.manual ≡ x.manual
    pub last_pipe : (y.last_pipe ≡ none) ⊎ (y.last_pipe ≡ x.last_pipe)
    pub subscriptions : y.subscriptions ≡ x.subscriptions
    pub manual_subscriptions : y.manual_subscriptions ≡ x.manual_subscriptions
    pub dist : y.dist ≡ x.dist

module _ {T : Type 0} ⦃subs : Subscriptions T⦄ where
  send_unsubscriptions-Sends :
      (qs : List Bytes) (x : Xpub T) → Sends qs x (send_unsubscriptions qs x)
  unfolding send_unsubscriptions
  send_unsubscriptions-Sends [] x = ground (
    arith,
    append-nil x.pending,
    append-nil x.pending_pipes,
    Bool-cases x.is_pub,
    Bool-cases x.manual,
  )
  send_unsubscriptions-Sends (q ∷ qs) x = elim (Bool-cases x.is_pub) [
    | inl e ↦ ground (arith, e, send_unsubscriptions-Sends qs x)
    | inr e ↦
        (let n : Msg = notification (record { subscribe = false; topic = q }) in
          let y : Xpub T = record x {
            pending = x.pending ++ n ∷ [];
            last_pipe = if x.manual then none else x.last_pipe;
            pending_pipes = if x.manual then x.pending_pipes ++ none ∷ [] else x.pending_pipes;
          } in
          ground (
            arith,
            e,
            send_unsubscriptions-Sends qs y,
            append_assoc x.pending (n ∷ []) (cancellations qs),
            append_assoc x.pending_pipes (none ∷ []) (no_pipes qs),
            Bool-cases x.manual,
          ))
  ]

  -- When a pipe has terminated, the distributor has dropped it, and the table of subscriptions, and that of the
  -- requests if the socket is manual, are what taking the pipe out of them gives. A socket that is not manual
  -- queues one cancellation for each topic that the table gives, in its order, behind what waits for
  -- the application; a manual one does so for the topics that the table of the requests gives, with no pipe
  -- for each, and has no last pipe that is the one that terminated. A PUB socket queues nothing.
  pub xpipe_terminated_lem :
      (p : ℕ) (x : Xpub T)
      → let y = xpipe_terminated p x in
        let a =
          if x.manual
          then subs.rm_pipe p false x.manual_subscriptions
          else subs.rm_pipe p (not x.verbose_unsubs) x.subscriptions in
        (y.subscriptions ≡ (if x.manual then (subs.rm_pipe p false x.subscriptions).1 else a.1))
        × (y.manual_subscriptions ≡ (if x.manual then a.1 else x.manual_subscriptions))
        × (y.pending ≡ (if x.is_pub then x.pending else x.pending ++ cancellations a.0))
        × (y.pending_pipes ≡ (
            if not x.is_pub && x.manual then x.pending_pipes ++ no_pipes a.0 else x.pending_pipes))
        × (x.manual ≡ true → is_last p y.last_pipe ≡ false)
        × (y.dist ≡ Dist.pipe_terminated p x.dist)
  unfolding xpipe_terminated
  xpipe_terminated_lem p x = elim (Bool-cases x.manual) [
    | inl e ↦
        (let a = subs.rm_pipe p false x.manual_subscriptions in
          let begun : Xpub T = record x { manual_subscriptions = a.1 } in
          let y = send_unsubscriptions a.0 begun in
          ground (
            arith,
            e,
            send_unsubscriptions-Sends a.0 begun,
            Bool-cases (is_last p y.last_pipe),
            ap (λ t. subs.rm_pipe p false t) (send_unsubscriptions-Sends a.0 begun).subscriptions,
          ))
    | inr e ↦
        (let a = subs.rm_pipe p (not x.verbose_unsubs) x.subscriptions in
          let begun : Xpub T = record x { subscriptions = a.1 } in
          ground (arith, e, send_unsubscriptions-Sends a.0 begun))
  ]
