-- ===== src/Pipe/Queue.antt =====
-- src/util/ypipe_base.hpp: what a pipe endpoint uses of the queue below it, `ypipe_t` or
-- `ypipe_conflate_t`. `size` bounds the items that a queue can still give back, for the loops that
-- empty it.
use serverlink.Prelude.{ℕ, ◌<◌, ◌≤◌, ◌≡◌, Bool, Option, none, some}
use serverlink.Msg.{Msg}

pub record YpipeBase (Q : Type 0) : Type 0 where
  pub write : Q → Msg → Bool → Q
  pub unwrite : Q → Option Msg × Q
  pub flush : Q → Bool × Q
  pub check_read : Q → Bool × Q
  pub read : Q → Option Msg × Q
  pub front : Q → Option Msg
  pub size : Q → ℕ
  pub read_shrinks : (q : Q) (m : Msg) → (read q).0 ≡ some m → size (read q).1 < size q
  pub unwrite_shrinks : (q : Q) (m : Msg) → (unwrite q).0 ≡ some m → size (unwrite q).1 < size q
  pub read_keeps : (q : Q) → (read q).0 ≡ none → size (read q).1 ≤ size q
