-- ===== src/Router/Others.antt =====
-- Asking for input, marking a pipe as writable and setting an option keep the ids of the peers
-- (src/core/router.cpp, src/core/socket_base.cpp).
use serverlink.Prelude.{
  ℕ, suc, ◌≡◌, refl, ap, inl, inr, arith, ◌==◌, leb, true, false, ◌&&◌, none, some, [], ◌∷◌, Bytes,
  length, Bool-cases, Option-cases, find, IsMap, bytes_eq,
}
use serverlink.Prelude.Int.{to_ℕ}
use serverlink.Fq.{Received}
use serverlink.Fq
use serverlink.Options.{is_int, int_of, is_not_negative}
use serverlink.Peers.{Peers}
use serverlink.Router.{Router}
use serverlink.Router.Table.{OutPipes, xwrite_activated}
use serverlink.Router.Settings.{
  RouterOption, router_raw, router_mandatory, probe_router, router_handover, router_notify,
  connect_routing_id, other, set_value, is_chosen, xsetsockopt,
}
use serverlink.Router.Receive.{recv_next, xhas_in, prefetch}
use serverlink.Router.Replies.{recv_next-ends}
use serverlink.Router.Peerage.{pipes, Tagged}
use serverlink.Router.Invariant.{IsValid}
use serverlink.Router.Steps.{Stays, moved, ids-recv_loop}

set_value_lem :
    (o : RouterOption) (v : ℕ) (r r' : Router)
    → set_value o v r ≡ some r'
    → (r'.out_pipes ≡ r.out_pipes) × (r'.anonymous_pipes ≡ r.anonymous_pipes)
set_value_lem router_raw v r r' e = ground (arith, e, Bool-cases (v == 0))
set_value_lem router_mandatory v r r' e = ground (arith, e)
set_value_lem probe_router v r r' e = ground (arith, e)
set_value_lem router_handover v r r' e = ground (arith, e)
set_value_lem router_notify v r r' e = ground (arith, e, Bool-cases (leb v 3))
set_value_lem connect_routing_id v r r' e = cc
set_value_lem other v r r' e = cc

xsetsockopt_lem :
    (o : RouterOption) (b : Bytes) (r r' : Router)
    → xsetsockopt o b r ≡ some r'
    → (r'.out_pipes ≡ r.out_pipes) × (r'.anonymous_pipes ≡ r.anonymous_pipes)
unfolding xsetsockopt
xsetsockopt_lem o b r r' e = elim (Bool-cases (is_chosen o)) [
  | inl c ↦ ground (arith, e, c, Bool-cases (length b == 0))
  | inr c ↦ ground (
    arith,
    e,
    c,
    Bool-cases (is_int b && is_not_negative (int_of b)),
    set_value_lem o (to_ℕ (int_of b)) r r',
  )
]

-- A pipe is marked, and nothing else changes.
record Marked (g : ℕ → Bytes) (m m' : OutPipes) : Type 0 where
  free : (id : Bytes) → find id m ≡ none → find id m' ≡ none
  map : IsMap m → IsMap m'
  tagged : Tagged g m → Tagged g m'
  same : pipes m' ≡ pipes m

xwrite_activated-Marked :
    (g : ℕ → Bytes) (p : ℕ) (m m' : OutPipes) → xwrite_activated p m ≡ some m' → Marked g m m'
unfolding xwrite_activated find IsMap Tagged
xwrite_activated-Marked g p [] m' e = cc
xwrite_activated-Marked g p ((j, w) ∷ m) m' e = elim (Bool-cases (w.pipe == p)) [
  | inl a ↦ elim (Bool-cases w.active) [
    | inl b ↦ absurd (ground (arith, e, a, b))
    | inr b ↦
        let same : m' ≡ (j, record w { active = true }) ∷ m = ground (arith, e, a, b) in
        rw same
          (record { free = λ id h. ground (arith, h); map = λ u. u; tagged = λ t. t; same = refl })
  ]
  | inr a ↦ elim (Option-cases (xwrite_activated p m)) [
    | inl b ↦ absurd (ground (arith, e, a, b))
    | inr (m'', b) ↦
        let same : m' ≡ (j, w) ∷ m'' = ground (arith, e, a, b) in
        let k = xwrite_activated-Marked g p m m'' b in
        rw same (record {
          free = λ id h. ground (arith, h, k.free id);
          map = λ u. (k.free j u.0, k.map u.1);
          tagged = λ t. (t.0, k.tagged t.1);
          same = ap (λ l. w.pipe ∷ l) k.same;
        })
  ]
]

module _ {S : Type 0} ⦃peers : Peers S⦄ where
  prefetch-Stays :
      (x : Received × Fq.Fq × S) (r : Router) (s : S)
      → ((q : ℕ) → peers.get_routing_id q x.2 ≡ peers.get_routing_id q s)
      → let y = prefetch (some x) r s in Stays r s (y.1, y.2)
  prefetch-Stays (Fq.message m p, q, s') r s i = record { out = refl; anonymous = refl; ids = i }
  prefetch-Stays (Fq.eagain, q, s') r s i = record { out = refl; anonymous = refl; ids = i }
  prefetch-Stays (Fq.broken, q, s') r s i = record { out = refl; anonymous = refl; ids = i }

  pub xhas_in-IsValid : (r : Router) (s : S) → IsValid r s → let x = xhas_in r s in IsValid x.1 x.2
  unfolding xhas_in recv_next
  xhas_in-IsValid r s v = elim (Bool-cases r.more_in) [
    | inl a ↦ rw a (moved r _ s s v refl refl (λ q. refl))
    | inr a ↦ elim (Bool-cases r.prefetched) [
      | inl b ↦ rw (a, b) (moved r _ s s v refl refl (λ q. refl))
      | inr b ↦
          (let (x, e, _, _, _) = recv_next-ends r.fq s in
            let r' : Router = record r { more_in = false; prefetched = false } in
            let w =
              prefetch-Stays x r' s (λ q. ids-recv_loop (suc (peers.pending s)) r.fq s q x e) in
            rw (a, b, e) (moved r _ s _ v w.out w.anonymous w.ids))
    ]
  ]

  pub xsetsockopt-IsValid :
      (o : RouterOption) (b : Bytes) (r r' : Router) (s : S)
      → IsValid r s
      → xsetsockopt o b r ≡ some r'
      → IsValid r' s
  xsetsockopt-IsValid o b r r' s v e =
      let (f, g) = xsetsockopt_lem o b r r' e in moved r r' s s v f g (λ q. refl)

  pub xwrite_activated-IsValid :
      (p : ℕ) (m : OutPipes) (r : Router) (s : S)
      → IsValid r s
      → xwrite_activated p r.out_pipes ≡ some m
      → IsValid (record r { out_pipes = m }) s
  xwrite_activated-IsValid p m r s v e =
      let k = xwrite_activated-Marked (λ q. peers.get_routing_id q s) p r.out_pipes m e in
      record {
        map = k.map v.map;
        tagged = k.tagged v.tagged;
        anonymous = λ q h. rw k.same (v.anonymous q h);
        unique = v.unique;
      }
