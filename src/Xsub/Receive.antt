-- ===== src/Xsub/Receive.antt =====
-- Receiving by a subscriber (src/core/xsub.cpp) over fair queueing: messages that do not match are skipped
-- with all their parts.
use serverlink.Prelude.{
  ℕ, zero, suc, ◌≡◌, ◌⊎◌, inl, inr, refl, arith, Bool, true, false, not, ◌||◌, if◌then◌else◌,
  Option, none, some, Option-cases, Bool-cases,
}
use serverlink.Msg.{Msg, is_more}
use serverlink.Fq.{Fq, Received, message, eagain, broken, recvpipe}
use serverlink.Patterns.{num_patterns}
use serverlink.Trie.Cuts.{valid}
use serverlink.Trie.Lookup.{prefixes, any_refs}
use serverlink.Xsub.{Xsub, match}
use serverlink.Xsub.Filter.{match_lem}

-- A message that was taken out for a poll, and whether parts of a message are to follow.
pub record Incoming (S : Type 0) : Type 0 where
  pub message : Option Msg
  pub more_recv : Bool
  pub fq : Fq
  pub store : S

-- A message, EAGAIN, a failed assertion, or no end within the fuel.
pub data Result : Type 0 where
  got : Msg → Result
  try_again failed unfinished : Result

Received-cases :
    (r : Received) → ((m : Msg) × (p : ℕ) × (r ≡ message m p)) ⊎ (r ≡ eagain) ⊎ (r ≡ broken)
Received-cases (message m p) = inl (m, p, refl)
Received-cases eagain = inr (inl refl)
Received-cases broken = inr (inr refl)

module _ {S : Type 0} (read : ℕ → S → Option Msg × S) where
  abbrev pub recv : Incoming S → Received × Incoming S
  recv i = let r = recvpipe read i.fq i.store in (r.0, record i { fq = r.1; store = r.2 })

  -- The remaining parts of a message are taken out; a part that is missing fails an assertion.
  unfoldable pub skip_parts : ℕ → Msg → Incoming S → Option Bool × Incoming S
  skip_parts zero m i = (none, i)
  skip_parts (suc f) m i =
      let next = recv i in
      elim next.0 [
        | message m' p ↦
            (let rest = skip_parts f m' next.1 in if is_more m then rest else (some true, i))
        | eagain ↦ (if is_more m then (some false, next.1) else (some true, i))
        | broken ↦ (if is_more m then (some false, next.1) else (some true, i))
      ]

  -- Whether a message is handed to the user.
  abbrev pub is_wanted : Xsub → Bool → Msg → Option Bool
  is_wanted x more m = if more || not x.filter then some true else match m.body x

  unfoldable pub xrecv_loop : ℕ → Xsub → Incoming S → Result × Incoming S
  xrecv_loop zero x i = (unfinished, i)
  xrecv_loop (suc f) x i = elim (recv i).0 [
    | eagain ↦ (try_again, (recv i).1)
    | broken ↦ (failed, (recv i).1)
    | message m p ↦ elim (is_wanted x i.more_recv m) [
      | none ↦ (failed, (recv i).1)
      | some true ↦ (got m, record (recv i).1 { more_recv = is_more m })
      | some false ↦
          (let skipped = skip_parts f m (recv i).1 in
            elim skipped.0 [
              | none ↦ (unfinished, skipped.1)
              | some false ↦ (failed, skipped.1)
              | some true ↦ xrecv_loop f x skipped.1
            ])
    ]
  ]

  unfoldable pub xrecv : ℕ → Xsub → Incoming S → Result × Incoming S
  xrecv f x i = elim i.message [
    | some m ↦ (got m, record i { message = none; more_recv = is_more m })
    | none ↦ xrecv_loop f x i
  ]

  skip_parts-more_recv :
      (f : ℕ) (m : Msg) (i : Incoming S) → (skip_parts f m i).1.more_recv ≡ i.more_recv
  unfolding skip_parts
  skip_parts-more_recv zero m i = refl
  skip_parts-more_recv (suc f) m i = elim (Received-cases (recv i).0) [
    | inl (m', p, eq) ↦
        ground (arith, eq, skip_parts-more_recv f m' (recv i).1, Bool-cases (is_more m))
    | inr (inl eq) ↦ ground (arith, eq, Bool-cases (is_more m))
    | inr (inr eq) ↦ ground (arith, eq, Bool-cases (is_more m))
  ]

  loop-got :
      (f : ℕ) (x : Xsub) (i i' : Incoming S) (m : Msg)
      → i.more_recv ≡ false
      → x.filter ≡ true
      → xrecv_loop f x i ≡ (got m, i')
      → (match m.body x ≡ some true) × (i'.more_recv ≡ is_more m)
  unfolding xrecv_loop
  loop-got zero x i i' m h k eq = ground arith
  loop-got (suc f) x i i' m h k eq = elim (Received-cases (recv i).0) [
    | inl (m', p, got_it) ↦
        (let skipped = skip_parts f m' (recv i).1 in
          ground (
            arith,
            got_it,
            Option-cases (match m'.body x),
            Option-cases skipped.0,
            skip_parts-more_recv f m' (recv i).1,
            loop-got f x skipped.1 i' m,
          ))
    | inr (inl none_left) ↦ ground (arith, none_left)
    | inr (inr bad) ↦ ground (arith, bad)
  ]

  -- At the start of a message, with the filter on, with no patterns and no inverted match, a socket whose
  -- trie is well-formed and that took out no message for a poll hands over a message only if one of the
  -- message's prefixes was subscribed to, and remembers whether parts are to follow.
  pub xrecv-prefixes :
      (f : ℕ) (x : Xsub) (i i' : Incoming S) (m : Msg)
      → i.message ≡ none
      → i.more_recv ≡ false
      → x.filter ≡ true
      → x.invert_matching ≡ false
      → num_patterns x.pattern_subscriptions ≡ 0
      → valid x.subscriptions.trie ≡ true
      → xrecv f x i ≡ (got m, i')
      → (any_refs (prefixes m.body) x.subscriptions.trie ≡ true) × (i'.more_recv ≡ is_more m)
  unfolding xrecv
  xrecv-prefixes f x i i' m empty h k straight plain v eq =
      ground (arith, loop-got f x i i' m h k, match_lem m.body x v plain)

  -- A message that is there and has such a prefix is handed over at once.
  pub xrecv_ready :
      (f p : ℕ) (x : Xsub) (i : Incoming S) (m : Msg)
      → i.message ≡ none
      → i.more_recv ≡ false
      → x.invert_matching ≡ false
      → num_patterns x.pattern_subscriptions ≡ 0
      → valid x.subscriptions.trie ≡ true
      → any_refs (prefixes m.body) x.subscriptions.trie ≡ true
      → (recv i).0 ≡ message m p
      → xrecv (suc f) x i ≡ (got m, record (recv i).1 { more_recv = is_more m })
  unfolding xrecv xrecv_loop
  xrecv_ready f p x i m empty h straight plain v wanted eq =
      ground (arith, empty, eq, match_lem m.body x v plain, Bool-cases x.filter)
