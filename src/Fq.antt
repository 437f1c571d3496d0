-- ===== src/Fq.antt =====
-- src/pipe/fq.cpp over src/core/array.hpp: fair queueing, by which a socket reads from its pipes in
-- turn. Pipes are numbers; what a pipe answers, and what reading does to it, are parameters.
pub mod Bounds
use serverlink.Prelude.{
  ℕ, zero, suc, ◌+◌, ◌-◌, ◌%◌, ◌==◌, ltb, Bool, true, false, if◌then◌else◌, Option, none, some,
  List, [], ◌∷◌, ◌++◌, length, get_or, set, take,
}
use serverlink.Msg.{Msg, is_more}

-- The first `active` pipes may have something to read; `more` while a message is partly read.
pub record Fq : Type 0 where
  pub pipes : List ℕ
  pub active : ℕ
  pub current : ℕ
  pub more : Bool

unfoldable pub new_fq : Fq
new_fq = record { pipes = []; active = 0; current = 0; more = false }

-- The position that the array keeps in each item; the length for a pipe that is not in it.
abbrev pub index : List ℕ → ℕ → ℕ
index [] p = 0
index (x ∷ xs) p = if x == p then 0 else suc (index xs p)

abbrev pub swap : ℕ → ℕ → List ℕ → List ℕ
swap i j xs = set (set xs i (get_or xs j 0)) j (get_or xs i 0)

-- The last item takes the place of the one that goes.
abbrev pub erase_at : ℕ → List ℕ → List ℕ
erase_at i xs = take (length xs - 1) (set xs i (get_or xs (length xs - 1) 0))

unfoldable pub attach : ℕ → Fq → Fq
attach p q = record q {
  pipes = swap q.active (length q.pipes) (q.pipes ++ p ∷ []);
  active = q.active + 1;
}

-- The current pipe is taken out of the active ones.
abbrev pub wrap : Fq → Fq
wrap q = if q.current == q.active then record q { current = 0 } else q

abbrev pub drop_active : ℕ → Fq → Fq
drop_active i q = wrap (record q { active = q.active - 1; pipes = swap i (q.active - 1) q.pipes })

unfoldable pub pipe_terminated : ℕ → Fq → Fq
pipe_terminated p q =
    let i = index q.pipes p in
    let q' = if ltb i q.active then drop_active i q else q in
    record q' { pipes = erase_at (index q'.pipes p) q'.pipes }

unfoldable pub activated : ℕ → Fq → Fq
activated p q = record q { pipes = swap (index q.pipes p) q.active q.pipes; active = q.active + 1 }

-- What `recvpipe` gives: a message and its pipe, EAGAIN, or a failed assertion.
pub data Received : Type 0 where
  message : Msg → ℕ → Received
  eagain : Received
  broken : Received

module _ {S : Type 0} (read : ℕ → S → Option Msg × S) where
  -- After a message the next pipe is the current one, unless parts of the message are to follow.
  unfoldable pub fetched : Msg → Fq → Fq
  fetched m q = record q {
    more = is_more m;
    current = if is_more m then q.current else (q.current + 1) % q.active;
  }

  -- A round of the loop uses up an active pipe, so their number is fuel enough.
  unfoldable pub recv_loop : ℕ → Fq → S → Received × Fq × S
  recv_loop zero q s = (eagain, q, s)
  recv_loop (suc f) q s =
      let p = get_or q.pipes q.current 0 in
      elim (read p s).0 [
        | some m ↦ (message m p, fetched m q, (read p s).1)
        | none ↦
            (let rest = recv_loop f (drop_active q.current q) (read p s).1 in
              if q.more then (broken, q, (read p s).1) else rest)
      ]

  unfoldable pub recvpipe : Fq → S → Received × Fq × S
  recvpipe q s = recv_loop q.active q s

module _ {S : Type 0} (check_read : ℕ → S → Bool × S) where
  unfoldable pub in_loop : ℕ → Fq → S → Bool × Fq × S
  in_loop zero q s = (false, q, s)
  in_loop (suc f) q s =
      let p = get_or q.pipes q.current 0 in
      elim (check_read p s).0 [
        | true ↦ (true, q, (check_read p s).1)
        | false ↦ in_loop f (drop_active q.current q) (check_read p s).1
      ]

  unfoldable pub has_in : Fq → S → Bool × Fq × S
  has_in q s = if q.more then (true, q, s) else in_loop q.active q s
