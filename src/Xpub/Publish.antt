-- ===== src/Xpub/Publish.antt =====
-- A message goes to the pipes that the table of subscriptions gives for it, and to no other (src/core/xpub.cpp,
-- src/pipe/dist.cpp).
use serverlink.Prelude.{
  ℕ, ◌+◌, ◌≡◌, ◌≤◌, inl, inr, refl, sym, ap, ◌∙◌, arith, ==_iff, Bool, true, false, ◌||◌,
  if◌then◌else◌, List, [], ◌∷◌, Bool-cases,
}
use mathlib.Core.Path.{subst}
use serverlink.Prelude.Sets.{has}
use serverlink.Msg.{Msg}
use serverlink.Dist.{Dist, match, unmatch}
use serverlink.Dist
use serverlink.Dist.Bounds.{IsValid, match-IsValid}
use serverlink.Dist.Slots.{among, count}
use serverlink.Dist.Delivery.{Log, logged, logged_flush, send_to_matching_delivery}
use serverlink.Dist.Matching.{match_lem}
use serverlink.Xpub.{Xpub}
use serverlink.Xpub.Send.{match_all, select, transmit, xsend}
use serverlink.Xpub.Table.{Subscriptions}

match_all_lem :
    (ps : List ℕ) (q : ℕ) (d : Dist)
    → IsValid d
    → d.more ≡ false
    → ((x : ℕ) → count d.pipes x ≤ 1)
    → let d' = match_all ps d in
      (among d'.pipes 0 d'.matching q
        ≡ (if has ps q then among d.pipes 0 d.active q else among d.pipes 0 d.matching q))
      × ((x : ℕ) → count d'.pipes x ≡ count d.pipes x)
      × IsValid d'
      × (d'.active ≡ d.active)
      × (d'.more ≡ false)
match_all_lem [] q d v h u = ground arith
match_all_lem (p ∷ ps) q d v h u =
    let m = match_lem p q d v h u in
    let w = match-IsValid p d h v in
    let counts : (x : ℕ) → count (match p d).pipes x ≡ count d.pipes x =
      λ x. (match_lem p x d v h u).2 in
    let (a, b, c, e, f) =
      match_all_lem ps q (match p d) w (ground (arith, m)) (λ x. ground (arith, counts x, u x)) in
    (ground (arith, a, m, ==_iff p q), λ x. b x ∙ counts x, c, ground (arith, e, m), f)

unmatch-IsValid : (d : Dist) → IsValid d → IsValid (unmatch d)
unfolding unmatch
unmatch-IsValid d v = ground (arith, v)

if_false {ℓ} : {A : Type ℓ} (b : Bool) (x y : A) → b ≡ false → (if b then x else y) ≡ y
if_false true x y e = cc
if_false false x y e = refl

module _ {T S : Type 0} ⦃subs : Subscriptions T⦄ (w : ℕ → Msg → S → Bool × S) (flush : ℕ → S → S)
    (full : ℕ → Log S → Bool) where
  matched : Msg → Xpub T → Dist
  matched m x = match_all (subs.match m.body x.subscriptions) (unmatch x.dist)

  select_plain :
      (m : Msg) (x : Xpub T)
      → x.manual ≡ false
      → x.invert_matching ≡ false
      → select m.body x ≡ record x { dist = matched m x }
  unfolding matched
  select_plain m x b c = rw (b, c) refl

  matched_lem :
      (m : Msg) (x : Xpub T) (q : ℕ)
      → IsValid x.dist
      → x.dist.more ≡ false
      → ((p : ℕ) → count x.dist.pipes p ≤ 1)
      → let d = matched m x in
        (among d.pipes 0 d.matching q ≡ (
          if has (subs.match m.body x.subscriptions) q
          then among x.dist.pipes 0 x.dist.active q
          else 0))
        × ((p : ℕ) → count d.pipes p ≤ 1)
        × IsValid d
  unfolding matched unmatch
  matched_lem m x q v h u =
      let (a, b, c, e, f) =
        match_all_lem (subs.match m.body x.subscriptions) q (unmatch x.dist) (ground (arith, v)) h
          u in
      (ground (arith, a), λ p. ground (arith, b p, u p), c)

  -- What sending a message by a socket `y` that has chosen the pipes makes of it.
  abbrev Delivered : Bool → Msg → Xpub T → Log S → ℕ → ℕ → Xpub T → Type 0
  Delivered vsm m x s refs q y =
      let r = transmit (logged w) (logged_flush flush) full vsm m y s refs in
      (x.lossy ≡ true → r.0 ≡ true)
      × (r.0 ≡ false → (r.2 ≡ s) × (Dist.check_hwm (λ p. full p s) r.1.dist ≡ false))
      × (r.0 ≡ true
          → count r.2.attempts q
            ≡ count s.attempts q
              + (if has (subs.match m.body x.subscriptions) q
                  then among x.dist.pipes 0 x.dist.active q
                  else 0))
      × IsValid r.1.dist

  delivered :
      (vsm : Bool) (m : Msg) (x : Xpub T) (s : Log S) (refs q : ℕ)
      → IsValid (matched m x)
      → ((p : ℕ) → count (matched m x).pipes p ≤ 1)
      → 1 ≤ refs
      → among (matched m x).pipes 0 (matched m x).matching q ≡ (
          if has (subs.match m.body x.subscriptions) q
          then among x.dist.pipes 0 x.dist.active q
          else 0)
      → Delivered vsm m x s refs q (record x { dist = matched m x })
  delivered vsm m x s refs q i o k n =
      let d : Dist = matched m x in
      let (c, f, g, _) = send_to_matching_delivery w flush vsm m d s refs q i o k in
      let done : Dist =
        (Dist.send_to_matching (logged w) (logged_flush flush) vsm m d (s, refs)).0 in
      elim (Bool-cases (x.lossy || Dist.check_hwm (λ p. full p s) d)) [
        | inl e ↦ rw e (
          (λ l. refl),
          (λ l. cc),
          (λ l. c ∙ ap (λ z. count s.attempts q + z) n),
          ground (arith, g, unmatch-IsValid done g),
        )
        | inr e ↦ rw e ((λ l. ground (arith, l, e)), (λ l. (refl, ground (arith, e))), (λ l. cc), i)
      ]

  -- The first part of a message is written once to each active pipe that the table of subscriptions gives for
  -- it, however often, and to no other pipe, whatever the pipes answer, and the bounds of the distributor stay in
  -- order; a socket that may not drop messages says EAGAIN instead, and writes to none, only if one of these
  -- pipes is full. This holds of a socket that is neither manual nor inverts what matches, between two
  -- messages, with its distributor in order.
  pub xsend-delivery :
      (vsm : Bool) (m : Msg) (x : Xpub T) (s : Log S) (refs q : ℕ)
      → IsValid x.dist
      → x.dist.more ≡ false
      → ((p : ℕ) → count x.dist.pipes p ≤ 1)
      → 1 ≤ refs
      → x.more_send ≡ false
      → x.manual ≡ false
      → x.invert_matching ≡ false
      → let r = xsend (logged w) (logged_flush flush) full vsm m x (s, refs) in
        (x.lossy ≡ true → r.0 ≡ true)
        × (r.0 ≡ false → (r.2 ≡ s) × (Dist.check_hwm (λ p. full p s) r.1.dist ≡ false))
        × (r.0 ≡ true
            → count r.2.attempts q
              ≡ count s.attempts q
                + (if has (subs.match m.body x.subscriptions) q
                    then among x.dist.pipes 0 x.dist.active q
                    else 0))
        × IsValid r.1.dist
  unfolding xsend
  xsend-delivery vsm m x s refs q v h u k a b c =
      let y : Xpub T = record x { dist = matched m x } in
      let (n, o, i) = matched_lem m x q v h u in
      let eq : (if x.more_send then x else select m.body x) ≡ y =
        if_false x.more_send x (select m.body x) a ∙ select_plain m x b c in
      subst (λ z. Delivered vsm m x s refs q z) (sym eq) (delivered vsm m x s refs q i o k n)
