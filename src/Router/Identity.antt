-- ===== src/Router/Identity.antt =====
-- What the identification of a peer leaves (src/core/router.cpp).
use serverlink.Prelude.{
  ℕ, ◌≡◌, refl, ◌∙◌, ap, inl, inr, arith, ◌==◌, ==_iff, Bool, true, false, if◌then◌else◌, none,
  some, List, [], Bytes, bytes_eq, find, insert, IsMap, insert-IsMap, find-insert, bytes_beq_iff,
  Option-cases, Bool-cases, not, ◌&&◌,
}
use serverlink.Prelude.Sets.{has}
use serverlink.Msg.{Msg}
use serverlink.Peers.{Peers}
use serverlink.Router.{
  Router, integral_id, count_id, Identified, known, unknown, broken, add_peer, hand_over,
  add_handed_over, identify_by, identify_peer, is_empty, is_current, rename, enter,
}
use serverlink.Router.Table.{
  OutPipe, OutPipes, add_out_pipe, has_out_pipe, erase_out_pipe, lookup_out_pipe,
}
use serverlink.Router.Peerage.{
  pipes, Tagged, Tagged-same, Tagged-set, Tagged-insert, Tagged-erase, entered_pipe, erase-IsMap,
  has-erase_out_pipe, has-insert, find-erase_other, find-erase_out_pipe,
}

module _ {S : Type 0} ⦃peers : Peers S⦄ where
  -- The pipe `p` is entered beside those of `m`; `a` are the pipes without an id.
  pub record Entered (p : ℕ) (m : OutPipes) (a : List ℕ) (r : Router) (s : S) : Type 0 where
    pub map : IsMap r.out_pipes
    pub tagged : Tagged (λ q. peers.get_routing_id q s) r.out_pipes
    pub pipes_after :
        (q : ℕ) → has (pipes r.out_pipes) q ≡ (if p == q then true else has (pipes m) q)
    pub same : r.anonymous_pipes ≡ a

  -- What identification leaves when no assertion fails.
  unfoldable pub Result : ℕ → OutPipes → List ℕ → Identified S → Type 0
  Result p m a (known r s) = Entered p m a r s
  Result p m a (unknown r s) =
      IsMap r.out_pipes
      × Tagged (λ q. peers.get_routing_id q s) r.out_pipes
      × ((q : ℕ) → has (pipes r.out_pipes) q ≡ has (pipes m) q)
      × (r.anonymous_pipes ≡ a)
  Result p m a broken = ⊥

  add_peer_free :
      (id : Bytes) (p now : ℕ) (r : Router) (s : S)
      → find id r.out_pipes ≡ none
      → add_peer id p now r s
        ≡ known
            (enter id now (insert id (record { pipe = p; active = true }) r.out_pipes) r)
            (peers.set_routing_id p id s)
  unfolding add_peer add_out_pipe
  add_peer_free id p now r s e = rw (add_peer, add_out_pipe, e) refl

  Result-add_peer :
      (id : Bytes) (p now : ℕ) (r : Router) (s : S)
      → IsMap r.out_pipes
      → Tagged (λ q. peers.get_routing_id q s) r.out_pipes
      → has (pipes r.out_pipes) p ≡ false
      → find id r.out_pipes ≡ none
      → Result p r.out_pipes r.anonymous_pipes (add_peer id p now r s)
  unfolding Result
  Result-add_peer id p now r s u t h e = rw (add_peer_free id p now r s e) (record {
    map = insert-IsMap id _ r.out_pipes u;
    tagged = Tagged-insert _ id _ r.out_pipes (ground (arith, peers.id-set p p id s)) (
        Tagged-set (λ q. peers.get_routing_id q s) _ p id r.out_pipes (λ q. peers.id-set p q id s) h
          t);
    pipes_after = λ q. has-insert q id _ r.out_pipes e;
    same = refl;
  })

  rename_lem :
      (old : ℕ) (m : OutPipes) (r : Router) (s : S)
      → let x = rename old m r s in
        (x.0.out_pipes ≡ m)
        × (x.0.anonymous_pipes ≡ r.anonymous_pipes)
        × ((q : ℕ)
            → peers.get_routing_id q x.1 ≡ (
                if old == q
                then integral_id r.next_integral_routing_id
                else peers.get_routing_id q s))
  unfolding count_id
  rename_lem old m r s = elim (Bool-cases (is_current old r.current_in)) [
    | inl e ↦ rw e (refl, refl, λ q. peers.id-set old q _ s)
    | inr e ↦ rw e (refl, refl, λ q. peers.id-terminate old q true _ ∙ peers.id-set old q _ s)
  ]

  -- The pipe that had `id` goes on with a new id.
  record Renamed (id : Bytes) (r : Router) (x : Router × S) : Type 0 where
    pub map : IsMap x.0.out_pipes
    pub tagged : Tagged (λ q. peers.get_routing_id q x.1) x.0.out_pipes
    pub pipes_after : (q : ℕ) → has (pipes x.0.out_pipes) q ≡ has (pipes r.out_pipes) q
    pub same : x.0.anonymous_pipes ≡ r.anonymous_pipes
    pub free : find id x.0.out_pipes ≡ none

  hand_over-Renamed :
      (id : Bytes) (o : OutPipe) (r : Router) (s : S)
      → IsMap r.out_pipes
      → Tagged (λ q. peers.get_routing_id q s) r.out_pipes
      → find id r.out_pipes ≡ some o
      → find (integral_id r.next_integral_routing_id) r.out_pipes ≡ none
      → (x : Router × S) × (hand_over o.pipe r s ≡ some x) × Renamed id r x
  unfolding hand_over add_out_pipe
  hand_over-Renamed id o r s u t e f =
      let new : Bytes = integral_id r.next_integral_routing_id in
      let m : OutPipes = erase_out_pipe o.pipe r.out_pipes in
      let free : find new m ≡ none = find-erase_other new o.pipe r.out_pipes f in
      let gone = find-erase_out_pipe _ id o r.out_pipes t u e in
      let left = has-erase_out_pipe _ o.pipe o.pipe r.out_pipes t u in
      let m' : OutPipes = insert new (record { pipe = o.pipe; active = true }) m in
      let (out, same, ids) = rename_lem o.pipe m' r s in
      (
        rename o.pipe m' r s,
        rw (hand_over, add_out_pipe, free) refl,
        record {
          map = rw out (insert-IsMap new _ m (erase-IsMap o.pipe r.out_pipes u));
          tagged = rw out (
              Tagged-insert _ new _ m (ids o.pipe ∙ ground (arith, ==_iff o.pipe o.pipe)) (
                Tagged-set (λ q. peers.get_routing_id q s) _ o.pipe new m ids
                  (ground (arith, left, ==_iff o.pipe o.pipe))
                  (Tagged-erase _ o.pipe r.out_pipes t)));
          pipes_after = λ q. rw out (
              has-insert q new _ m free
              ∙ ground (
                arith,
                has-erase_out_pipe _ o.pipe q r.out_pipes t u,
                entered_pipe id o r.out_pipes e,
                ==_iff o.pipe q,
                λ (x : o.pipe ≡ q). ap (has (pipes r.out_pipes)) x,
              ));
          same = same;
          free = rw out (
              find-insert new id _ m
              ∙ ground (
                arith,
                gone,
                f,
                e,
                bytes_beq_iff new id,
                λ (x : new ≡ id). ap (λ i. find i r.out_pipes) x,
              ));
        },
      )

  wider :
      (p : ℕ) (m : OutPipes) (a : List ℕ) (r : Router)
      → ((q : ℕ) → has (pipes r.out_pipes) q ≡ has (pipes m) q)
      → r.anonymous_pipes ≡ a
      → (x : Identified S) → Result p r.out_pipes r.anonymous_pipes x
      → Result p m a x
  unfolding Result
  wider p m a r e f (known r' s') h = record {
    map = h.map;
    tagged = h.tagged;
    pipes_after = λ q. ground (arith, h.pipes_after q, e q);
    same = h.same ∙ f;
  }
  wider p m a r e f (unknown r' s') h = (h.0, h.1, λ q. h.2 q ∙ e q, h.3 ∙ f)
  wider p m a r e f broken h = h

  identify_by_over :
      (m : Msg) (p now : ℕ) (o : OutPipe) (r : Router) (s : S)
      → is_empty m.body ≡ false
      → find m.body r.out_pipes ≡ some o
      → r.handover ≡ true
      → identify_by m p now r s ≡ add_handed_over m.body p now (hand_over o.pipe r s)
  unfolding identify_by lookup_out_pipe
  identify_by_over m p now o r s b e k = rw (identify_by, lookup_out_pipe, b, e, k) refl

  Result-identify_by :
      (m : Msg) (p now : ℕ) (r : Router) (s : S)
      → IsMap r.out_pipes
      → Tagged (λ q. peers.get_routing_id q s) r.out_pipes
      → has (pipes r.out_pipes) p ≡ false
      → find (integral_id r.next_integral_routing_id) r.out_pipes ≡ none
      → Result p r.out_pipes r.anonymous_pipes (identify_by m p now r s)
  unfolding identify_by lookup_out_pipe Result count_id
  Result-identify_by m p now r s u t h f = elim (Bool-cases (is_empty m.body)) [
    | inl b ↦
        rw b (Result-add_peer (integral_id r.next_integral_routing_id) p now (count_id r) s u t h f)
    | inr b ↦ elim (Option-cases (find m.body r.out_pipes)) [
      | inl e ↦ rw (b, e) (Result-add_peer m.body p now r s u t h e)
      | inr (o, e) ↦ elim (Bool-cases r.handover) [
        | inr k ↦ rw (b, e, k) (u, t, λ q. refl, refl)
        | inl k ↦
            let (x, eq, n) = hand_over-Renamed m.body o r s u t e f in
            rw (identify_by_over m p now o r s b e k, eq)
              (wider p r.out_pipes r.anonymous_pipes x.0 n.pipes_after n.same
                (add_peer m.body p now x.0 x.1)
                (Result-add_peer m.body p now x.0 x.1 n.map n.tagged (n.pipes_after p ∙ h) n.free))
      ]
    ]
  ]

  identify_peer_raw :
      (p : ℕ) (local : Bool) (now : ℕ) (r : Router) (s : S)
      → local && not (is_empty r.connect_routing_id) ≡ false
      → r.raw_option ≡ true
      → identify_peer p local now r s
        ≡ add_peer (integral_id r.next_integral_routing_id) p now (count_id r) s
  unfolding identify_peer
  identify_peer_raw p local now r s a b = rw (identify_peer, a, b) refl

  pub Result-identify_peer :
      (p : ℕ) (local : Bool) (now : ℕ) (r : Router) (s : S)
      → IsMap r.out_pipes
      → Tagged (λ q. peers.get_routing_id q s) r.out_pipes
      → has (pipes r.out_pipes) p ≡ false
      → find (integral_id r.next_integral_routing_id) r.out_pipes ≡ none
      → find r.connect_routing_id r.out_pipes ≡ none
      → Result p r.out_pipes r.anonymous_pipes (identify_peer p local now r s)
  unfolding identify_peer has_out_pipe Result count_id
  Result-identify_peer p local now r s u t h f c =
      elim (Bool-cases (local && not (is_empty r.connect_routing_id))) [
        | inl a ↦
            rw (a, has_out_pipe, c)
              (Result-add_peer r.connect_routing_id p now (record r { connect_routing_id = [] }) s u
                t h c)
        | inr a ↦ elim (Bool-cases r.raw_option) [
          | inl b ↦ rw (identify_peer_raw p local now r s a b) (
              Result-add_peer (integral_id r.next_integral_routing_id) p now (count_id r) s u t h f)
          | inr b ↦
              let t' =
                Tagged-same (λ q. peers.get_routing_id q s)
                  (λ q. peers.get_routing_id q (peers.read p s).1) r.out_pipes
                  (λ q. peers.id-read p q s) t in
              elim (Option-cases (peers.read p s).0) [
                | inl e ↦ rw (a, b, e) (u, t', λ q. refl, refl)
                | inr (m, e) ↦
                    rw (a, b, e) (Result-identify_by m p now r (peers.read p s).1 u t' h f)
              ]
        ]
      ]
