-- ===== src/Peers.antt =====
-- The pipes of src/pipe/pipe.hpp as a socket sees them, in a state `S` of all pipes, by their numbers.
pub mod Pipes
use serverlink.Prelude.{ℕ, ◌==◌, ◌≡◌, ◌<◌, ◌≤◌, Bool, if◌then◌else◌, Option, none, some, Bytes}
use serverlink.Msg.{Msg}

-- `pending` measures what waits to be read: a bound for how many messages the socket can read before the
-- peers write again. `read`, `check_write` and `write` give the result of the call of that name.
pub record Peers (S : Type 0) : Type 0 where
  pub read : ℕ → S → Option Msg × S
  pub check_write : ℕ → S → Bool × S
  pub check_hwm : ℕ → S → Bool
  pub write : ℕ → Msg → S → Bool × S
  pub flush : ℕ → S → S
  pub rollback : ℕ → S → S
  pub terminate : ℕ → Bool → S → S
  pub get_routing_id : ℕ → S → Bytes
  pub set_routing_id : ℕ → Bytes → S → S
  pub pending : S → ℕ
  pub pending-read_some :
      (p : ℕ) (m : Msg) (s : S) → (read p s).0 ≡ some m → pending (read p s).1 < pending s
  pub pending-read_none : (p : ℕ) (s : S) → (read p s).0 ≡ none → pending (read p s).1 ≤ pending s
  pub id-set :
      (p q : ℕ) (id : Bytes) (s : S)
      → get_routing_id q (set_routing_id p id s) ≡ (if p == q then id else get_routing_id q s)
  pub id-read : (p q : ℕ) (s : S) → get_routing_id q (read p s).1 ≡ get_routing_id q s
  pub id-check_write : (p q : ℕ) (s : S) → get_routing_id q (check_write p s).1 ≡ get_routing_id q s
  pub id-write : (p q : ℕ) (m : Msg) (s : S) → get_routing_id q (write p m s).1 ≡ get_routing_id q s
  pub id-flush : (p q : ℕ) (s : S) → get_routing_id q (flush p s) ≡ get_routing_id q s
  pub id-rollback : (p q : ℕ) (s : S) → get_routing_id q (rollback p s) ≡ get_routing_id q s
  pub id-terminate :
      (p q : ℕ) (delay : Bool) (s : S) → get_routing_id q (terminate p delay s) ≡ get_routing_id q s
