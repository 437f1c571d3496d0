-- ===== src/Fq/Bounds.antt =====
-- Fair queueing (src/pipe/fq.cpp) reads inside its array only, and says that there is nothing to read
-- only once no pipe is active.
use serverlink.Prelude.{
  ℕ, zero, suc, ◌+◌, ◌-◌, ◌≤◌, ◌<◌, ◌≡◌, refl, ◌⊎◌, ltb, inl, inr, Bool, true, false, if◌then◌else◌,
  Option, none, some, List, [], ◌∷◌, ◌++◌, arith, length, length-set, length-take, length-append,
  set, get_or, Option-cases, Bool-cases,
}
use native.Mathlib.Nat.{mod-lt}
use serverlink.Msg.{Msg}
use serverlink.Fq.{
  Fq, index, swap, erase_at, attach, drop_active, pipe_terminated, activated, Received, message,
  eagain, broken, fetched, recv_loop, recvpipe,
}

-- The active pipes stand in the array, and the current one is one of them if there are any.
pub record IsValid (q : Fq) : Type 0 where
  pub active : q.active ≤ length q.pipes
  pub current : (q.current < q.active) ⊎ ((q.current ≡ 0) × (q.active ≡ 0))

pub length-swap : (i j : ℕ) (xs : List ℕ) → length (swap i j xs) ≡ length xs
length-swap i j xs = omega (
  arith,
  length-set (set xs i (get_or xs j 0)) j (get_or xs i 0),
  length-set xs i (get_or xs j 0),
)

drop_active-IsValid : (i : ℕ) (q : Fq) → IsValid q → 0 < q.active → IsValid (drop_active i q)
drop_active-IsValid i q v k = ground (arith, length-swap i (q.active - 1) q.pipes)

drop_active-active : (i : ℕ) (q : Fq) → (drop_active i q).active ≡ q.active - 1
drop_active-active i q = ground arith

pub attach-IsValid : (p : ℕ) (q : Fq) → IsValid q → IsValid (attach p q)
unfolding attach
attach-IsValid p q v = ground (
  arith,
  length-swap q.active (length q.pipes) (q.pipes ++ p ∷ []),
  length-append q.pipes (p ∷ []),
)

pub activated-IsValid :
    (p : ℕ) (q : Fq)
    → IsValid q
    → q.active ≤ index q.pipes p
    → index q.pipes p < length q.pipes
    → IsValid (activated p q)
unfolding activated
activated-IsValid p q v l h = ground (arith, length-swap (index q.pipes p) q.active q.pipes)

pub length-erase_at : (i : ℕ) (xs : List ℕ) → length (erase_at i xs) ≡ length xs - 1
length-erase_at i xs = omega (
  arith,
  length-take (length xs - 1) (set xs i (get_or xs (length xs - 1) 0)),
  length-set xs i (get_or xs (length xs - 1) 0),
)

erased-IsValid :
    (i : ℕ) (q : Fq)
    → IsValid q
    → q.active < length q.pipes
    → IsValid (record q { pipes = erase_at i q.pipes })
erased-IsValid i q v h = record {
  active = omega (arith, length-erase_at i q.pipes);
  current = v.current;
}

length-drop_active : (i : ℕ) (q : Fq) → length (drop_active i q).pipes ≡ length q.pipes
length-drop_active i q = ground (arith, length-swap i (q.active - 1) q.pipes)

-- When a pipe that stands in the array is terminated, active or not, the current pipe is an active one
-- of those that are left, or there is none.
pub pipe_terminated-IsValid :
    (p : ℕ) (q : Fq) → IsValid q → index q.pipes p < length q.pipes → IsValid (pipe_terminated p q)
unfolding pipe_terminated
pipe_terminated-IsValid p q v h = elim (Bool-cases (ltb (index q.pipes p) q.active)) [
  | inl e ↦ rw e (
      erased-IsValid _ (drop_active (index q.pipes p) q)
        (drop_active-IsValid (index q.pipes p) q v (ground arith))
        (ground (
          arith,
          v.active,
          drop_active-active (index q.pipes p) q,
          length-drop_active (index q.pipes p) q,
        )))
  | inr e ↦ rw e (erased-IsValid _ q v (ground arith))
]

module _ {S : Type 0} (read : ℕ → S → Option Msg × S) where
  -- What a call of `recvpipe` leaves, with its answer.
  abbrev pub Fair : Received × Fq × S → Type 0
  Fair (eagain, q, s) = IsValid q × (q.active ≡ 0)
  Fair (other, q, s) = IsValid q × (q.current < q.active)

  fetched-IsValid :
      (m : Msg) (q : Fq)
      → IsValid q
      → 0 < q.active
      → IsValid (fetched read m q) × ((fetched read m q).current < (fetched read m q).active)
  unfolding fetched
  fetched-IsValid m q v k = ground (arith, mod-lt (q.current + 1) k)

  abbrev answer : Fq → S → Option Msg × S
  answer q s = read (get_or q.pipes q.current 0) s

  recv_loop-some :
      (f : ℕ) (q : Fq) (s : S) (m : Msg)
      → (answer q s).0 ≡ some m
      → recv_loop read (suc f) q s
        ≡ (message m (get_or q.pipes q.current 0), fetched read m q, (answer q s).1)
  unfolding recv_loop fetched
  recv_loop-some f q s m e = rw (recv_loop, e) refl

  recv_loop-none :
      (f : ℕ) (q : Fq) (s : S)
      → (answer q s).0 ≡ none
      → recv_loop read (suc f) q s ≡ (
          if q.more
          then (broken, q, (answer q s).1)
          else recv_loop read f (drop_active q.current q) (answer q s).1)
  unfolding recv_loop
  recv_loop-none f q s e = rw (recv_loop, e) refl

  if-Fair : (b : Bool) (x y : Received × Fq × S) → Fair x → Fair y → Fair (if b then x else y)
  if-Fair true x y h k = h
  if-Fair false x y h k = k

  current_active : (q : Fq) → IsValid q → 0 < q.active → q.current < q.active
  current_active q v k = ground (arith, v.current)

  recv_loop-Fair : (f : ℕ) (q : Fq) (s : S) → IsValid q → f ≡ q.active → Fair (recv_loop read f q s)
  unfolding recv_loop
  recv_loop-Fair zero q s v h = (v, omega arith)
  recv_loop-Fair (suc f) q s v h = elim (Option-cases (answer q s).0) [
    | inr (m, e) ↦ rw (recv_loop-some f q s m e) (fetched-IsValid m q v (omega arith))
    | inl e ↦ rw (recv_loop-none f q s e) (
        if-Fair q.more _ _ (v, current_active q v (omega arith))
          (recv_loop-Fair f (drop_active q.current q) (answer q s).1
            (drop_active-IsValid q.current q v (omega arith))
            (omega (arith, drop_active-active q.current q))))
  ]

  -- Reading from the pipes in turn keeps to the array, whatever the pipes answer: the current pipe is
  -- an active one afterwards, unless the answer is EAGAIN, and then no pipe is active any more.
  pub recvpipe-Fair : (q : Fq) (s : S) → IsValid q → Fair (recvpipe read q s)
  unfolding recvpipe
  recvpipe-Fair q s v = recv_loop-Fair q.active q s v refl
