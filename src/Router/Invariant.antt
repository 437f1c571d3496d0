-- ===== src/Router/Invariant.antt =====
-- The ids of the peers while the socket runs (src/core/router.cpp).
use serverlink.Prelude.{
  ℕ, ◌≡◌, ◌≢◌, refl, sym, ◌∙◌, ap, inl, inr, arith, ◌==◌, ==_iff, Bool, true, false, Option, none,
  some, List, bytes_eq, find, IsMap, Bool-cases,
}
use serverlink.Prelude.Sets.{
  has, has-erase-false, erase, is_unique, has-erase, has-erase_other, is_unique-erase,
}
use serverlink.Msg.{init}
use serverlink.Peers.{Peers}
use serverlink.Router.{
  Router, integral_id, Identified, known, unknown, broken, identify_peer, xattach_pipe,
  xread_activated, xpipe_terminated, is_empty, attached, identified, probe,
}
use serverlink.Router.Table.{OutPipes, erase_out_pipe}
use serverlink.Router.Peerage.{
  pipes, Tagged, Tagged-same, Tagged-erase, erase-IsMap, has-erase_out_pipe,
}
use serverlink.Router.Identity.{Entered, Result, Result-identify_peer}

-- No pipe of the socket stands under an id that it would give away next.
pub record IsFree (r : Router) : Type 0 where
  pub generated : find (integral_id r.next_integral_routing_id) r.out_pipes ≡ none
  pub chosen : find r.connect_routing_id r.out_pipes ≡ none

module _ {S : Type 0} ⦃peers : Peers S⦄ where
  -- Each id is that of one pipe, which has the id; a pipe without an id has no entry.
  pub record IsValid (r : Router) (s : S) : Type 0 where
    pub map : IsMap r.out_pipes
    pub tagged : Tagged (λ p. peers.get_routing_id p s) r.out_pipes
    pub anonymous : (p : ℕ) → has r.anonymous_pipes p ≡ true → has (pipes r.out_pipes) p ≡ false
    pub unique : is_unique r.anonymous_pipes ≡ true

  abbrev pub Valid : Option (Router × S) → Type 0
  Valid none = ⊥
  Valid (some (r, s)) = IsValid r s

  kept_apart :
      (p : ℕ) (m : OutPipes) (a : List ℕ) (r : Router) (s : S)
      → Entered p m a r s
      → ((q : ℕ) → has a q ≡ true → has (pipes m) q ≡ false)
      → (q : ℕ) → has a q ≡ true
      → p ≢ q
      → has (pipes r.out_pipes) q ≡ false
  kept_apart p m a r s e v q h n = ground (arith, e.pipes_after q, v q, ==_iff p q)

  attached-IsValid :
      (p : ℕ) (m : OutPipes) (a : List ℕ) (x : Identified S)
      → ((q : ℕ) → has a q ≡ true → has (pipes m) q ≡ false)
      → is_unique a ≡ true
      → has (pipes m) p ≡ false
      → has a p ≡ false
      → Result p m a x
      → Valid (attached p x)
  unfolding Result
  attached-IsValid p m a (known r s) v u h n e = record {
    map = e.map;
    tagged = e.tagged;
    anonymous = λ q k.
        kept_apart p m a r s e v q (ground (arith, k, e.same))
          (λ (i : p ≡ q). ground (arith, n, k, e.same, ap (has a) i));
    unique = ground (arith, e.same, u);
  }
  attached-IsValid p m a (unknown r s) v u h n (map, t, after, same) = record {
    map = map;
    tagged = t;
    anonymous = λ q k.
        ground (arith, after q, v q, ==_iff p q, same, h, n, λ (i : p ≡ q). ap (has (pipes m)) i);
    unique = ground (arith, same, u, n);
  }
  attached-IsValid p m a broken v u h n e = e

  -- A pipe that is attached once leaves each id with one pipe that has it, whether the id of the peer is
  -- known or still to come, and so does a pipe whose id comes later or whose peer has gone; no assertion
  -- fails where the id to generate next and the chosen one are free.
  pub xattach_pipe-IsValid :
      (p : ℕ) (local : Bool) (now : ℕ) (r : Router) (s : S)
      → IsValid r s
      → IsFree r
      → has (pipes r.out_pipes) p ≡ false
      → has r.anonymous_pipes p ≡ false
      → Valid (xattach_pipe p local now r s)
  unfolding xattach_pipe
  xattach_pipe-IsValid p local now r s v f h a =
      attached-IsValid p r.out_pipes r.anonymous_pipes (identify_peer p local now r (probe p r s))
        v.anonymous v.unique h a
        (Result-identify_peer p local now r (probe p r s) v.map
          (Tagged-same (λ q. peers.get_routing_id q s) (λ q. peers.get_routing_id q (probe p r s))
            r.out_pipes
            (λ q.
              ground
                (arith, peers.id-flush p q (peers.write p init s).1, peers.id-write p q init s))
            v.tagged)
          h f.generated f.chosen)

  identified-IsValid :
      (p : ℕ) (m : OutPipes) (a : List ℕ) (x : Identified S)
      → ((q : ℕ) → has a q ≡ true → has (pipes m) q ≡ false)
      → is_unique a ≡ true
      → Result p m a x
      → Valid (identified p x)
  unfolding Result
  identified-IsValid p m a (known r s) v u e = record {
    map = e.map;
    tagged = e.tagged;
    anonymous = λ q k. elim (Bool-cases (p == q)) [
      | inl i ↦ ground (
        arith,
        k,
        e.same,
        has-erase a p u,
        ap (λ j. has (erase a p) j) ((==_iff p q).0 i),
        ap (λ l. has (erase l p) q) e.same,
      )
      | inr i ↦
          let n : p ≢ q = λ j. ground (arith, i, (==_iff p q).1 j) in
          kept_apart p m a r s e v q
            (sym (has-erase_other a p q n) ∙ sym (ap (λ l. has (erase l p) q) e.same) ∙ k) n
    ];
    unique = ground (arith, e.same, u, is_unique-erase a p u);
  }
  identified-IsValid p m a (unknown r s) v u (map, t, after, same) = record {
    map = map;
    tagged = t;
    anonymous = λ q k. ground (arith, after q, v q, same);
    unique = ground (arith, same, u);
  }
  identified-IsValid p m a broken v u e = e

  pub xread_activated-IsValid :
      (p now : ℕ) (r : Router) (s : S) → IsValid r s → IsFree r → Valid (xread_activated p now r s)
  unfolding xread_activated
  xread_activated-IsValid p now r s v f = elim (Bool-cases (has r.anonymous_pipes p)) [
    | inr e ↦
        rw e (record { map = v.map; tagged = v.tagged; anonymous = v.anonymous; unique = v.unique })
    | inl e ↦ rw e (
        identified-IsValid p r.out_pipes r.anonymous_pipes (identify_peer p false now r s)
          v.anonymous v.unique
          (Result-identify_peer p false now r s v.map v.tagged (v.anonymous p e) f.generated
            f.chosen))
  ]

  others :
      (p : ℕ) (r : Router) (s : S)
      → IsValid r s
      → (q : ℕ) → p ≢ q
      → has (pipes (erase_out_pipe p r.out_pipes)) q ≡ has (pipes r.out_pipes) q
  others p r s v q n =
      ground (arith, ==_iff p q, has-erase_out_pipe _ p q r.out_pipes v.tagged v.map)

  gone :
      (p : ℕ) (r : Router) (s : S)
      → IsValid r s
      → has (pipes (erase_out_pipe p r.out_pipes)) p ≡ false
  gone p r s v = ground (arith, has-erase_out_pipe _ p p r.out_pipes v.tagged v.map)

  -- A socket like `r` that has left the pipe `p` out.
  left :
      (p : ℕ) (r : Router) (s : S)
      → IsValid r s
      → {r' : Router} → r'.out_pipes ≡ erase_out_pipe p r.out_pipes
      → r'.anonymous_pipes ≡ r.anonymous_pipes
      → IsValid r' (peers.rollback p s)
  left p r s v e f =
      rw (e, f)
        (record {
          map = erase-IsMap p r.out_pipes v.map;
          tagged =
              Tagged-same (λ q. peers.get_routing_id q s) _ _ (λ q. peers.id-rollback p q s)
                (Tagged-erase _ p r.out_pipes v.tagged);
          anonymous = λ q k.
              ground (arith, v.anonymous q k, has-erase_out_pipe _ p q r.out_pipes v.tagged v.map);
          unique = v.unique;
        })

  pub xpipe_terminated-IsValid :
      (p now : ℕ) (r : Router) (s : S)
      → IsValid r s
      → let x = xpipe_terminated p now r s in
        IsValid x.0 x.1
        × (has (pipes x.0.out_pipes) p ≡ false)
        × (has x.0.anonymous_pipes p ≡ false)
        × ((q : ℕ) → p ≢ q → has (pipes x.0.out_pipes) q ≡ has (pipes r.out_pipes) q)
  unfolding xpipe_terminated
  xpipe_terminated-IsValid p now r s v = elim (Bool-cases (has r.anonymous_pipes p)) [
    | inl e ↦ rw e (
      record {
        map = v.map;
        tagged = v.tagged;
        anonymous = λ q k. v.anonymous q (
            ground (
              arith,
              k,
              Bool-cases (has r.anonymous_pipes q),
              has-erase-false r.anonymous_pipes p q,
            ));
        unique = is_unique-erase r.anonymous_pipes p v.unique;
      },
      v.anonymous p e,
      has-erase r.anonymous_pipes p v.unique,
      λ q n. refl,
    )
    | inr e ↦ elim (Bool-cases (is_empty (peers.get_routing_id p s))) [
      | inl i ↦ rw (e, i) (left p r s v refl refl, gone p r s v, e, others p r s v)
      | inr i ↦ rw (e, i) (left p r s v refl refl, gone p r s v, e, others p r s v)
    ]
  ]
