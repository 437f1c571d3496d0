-- ===== src/Pipe/Credit.antt =====
-- Flow control over one direction of a pair: the water marks, what the writer knows of the reader's
-- progress, and that a reader who catches up always wakes the writer.
use serverlink.Prelude.{
  ℕ, suc, ◌+◌, ◌%◌, ◌/◌, ◌^◌, ◌≤◌, ◌<◌, ◌≡◌, refl, ◌∙◌, ◌↔◌, true, Option, none, some, List, [],
  ◌∷◌, arith, ◌⊎◌, inl, inr, Bool-cases,
}
use serverlink.Prelude.Int.{pos}
use mathlib.Core.Path.{subst}
use native.Mathlib.Nat.{mod-eq_of_lt, add-mod_right}
use serverlink.Msg.{Msg, is_delimiter}
use serverlink.Pipe.Queue.{YpipeBase}
use serverlink.Pipe.Endpoint.{
  active, Effect, activate_write, Pipe, sub64, compute_lwm, check_write, process_activate_write,
}
use serverlink.Pipe.Transfer.{
  write, read, count_read, fetch, received, with_none, process_delimiter, can_read,
}

-- The low water mark of a bounded pipe is positive, and below the high water mark unless that is 1,
-- where the two are the same.
pub compute_lwm_bounds :
    (h : ℕ)
    → 0 < h
    → (l : ℕ) × (compute_lwm (pos h) ≡ pos l) × (0 < l) × ((l < h) ⊎ ((h ≡ 1) × (l ≡ 1)))
unfolding compute_lwm
compute_lwm_bounds h k = ((h + 1) / 2, refl, omega arith, ground arith)

-- The messages that the writer believes to be on their way.
abbrev pub outstanding : {Q : Type 0} → Pipe Q → ℕ
outstanding p = sub64 p.msgs_written p.peers_msgs_read

pub record Bounded {Q : Type 0} (h : ℕ) (p : Pipe Q) : Type 0 where
  pub mark : p.hwm ≡ pos h
  pub within : outstanding p ≤ h
  pub written_u64 : p.msgs_written < 2 ^ 64
  pub read_u64 : p.peers_msgs_read < 2 ^ 64

module _ {Q : Type 0} (q : YpipeBase Q) where
  -- A write, accepted or refused, keeps the messages on their way within the high water mark. Marks
  -- are C++ ints.
  pub write-Bounded :
      (h : ℕ) (m : Msg) (p : Pipe Q) → 0 < h → h < 2 ^ 31 → Bounded h p → Bounded h (write q m p).1
  unfolding write
  write-Bounded h m p k l b = ground arith

  -- A bounded pipe takes a message exactly when it is active, not known to be full and below its
  -- high water mark.
  pub write-accepts :
      (h : ℕ) (m : Msg) (p : Pipe Q)
      → p.hwm ≡ pos h
      → 0 < h
      → ((write q m p).0 ≡ true) ↔ (p.out_active ≡ true) × (p.state ≡ active) × (outstanding p < h)
  unfolding write
  write-accepts h m p e k = (λ t. (ground arith, ground arith, ground arith), λ t. ground arith)

-- What the reader last told the writer; before the first notice both count from 0.
abbrev pub notified : {Q : Type 0} → List (Effect Q) → ℕ
notified [] = 0
notified (activate_write n ∷ es) = n
notified (e ∷ es) = notified es

-- The writer's knowledge is behind by less than the low water mark, of which it is a multiple.
pub record Lags {Q : Type 0} (l : ℕ) (p : Pipe Q) : Type 0 where
  pub mark : p.lwm ≡ pos l
  pub multiple : notified p.sent % l ≡ 0
  pub behind : notified p.sent ≤ p.msgs_read
  pub close : p.msgs_read < notified p.sent + l

next_multiple : (n l : ℕ) → n % l ≡ 0 → (n + l) % l ≡ 0
next_multiple n l h = add-mod_right n l ∙ h

module _ {Q : Type 0} (q : YpipeBase Q) where
  count_read-Lags :
      (l : ℕ) (m : Msg) (p : Pipe Q)
      → 0 < l
      → p.msgs_read + 1 < 2 ^ 64
      → Lags l p
      → Lags l (count_read q m p)
  unfolding count_read
  count_read-Lags l m p k u h =
      ground (arith, next_multiple (notified p.sent) l h.multiple, mod-eq_of_lt u)

  process_delimiter-Lags :
      (l : ℕ) (p p' : Pipe Q) → process_delimiter q p ≡ some p' → Lags l p → Lags l p'
  unfolding process_delimiter
  process_delimiter-Lags l p p' e h = ground arith

  with_none-some :
      (r : Option (Pipe Q)) {got : Option Msg} {p : Pipe Q}
      → with_none q r ≡ some (got, p)
      → r ≡ some p
  with_none-some none e = cc
  with_none-some (some p') e = ground arith

  second :
      {a b : Option Msg} {p p' : Pipe Q}
      → ◌≡◌ {A = Option (Option Msg × Pipe Q)} (some (a, p)) (some (b, p'))
      → p ≡ p'
  second e = ground arith

  received-Lags :
      (l : ℕ) (g got : Option Msg) (p p' : Pipe Q)
      → 0 < l
      → p.msgs_read + 1 < 2 ^ 64
      → received q g p ≡ some (got, p')
      → Lags l p
      → Lags l p'
  unfolding received
  received-Lags l none got p p' k u e h = ground arith
  received-Lags l (some m) got p p' k u e h = elim (Bool-cases (is_delimiter m)) [
    | inl d ↦ process_delimiter-Lags l p p' (with_none-some _ (rw (d, received) at e)) h
    | inr d ↦ subst (Lags l) (second (rw (d, received) at e)) (count_read-Lags l m p k u h)
  ]

  -- Whatever `read` finds (a message, nothing, a delimiter), the writer's knowledge stays behind by
  -- less than the low water mark.
  pub read-Lags :
      (l : ℕ) (p p' : Pipe Q) (got : Option Msg)
      → 0 < l
      → p.msgs_read + 1 < 2 ^ 64
      → read q p ≡ some (got, p')
      → Lags l p
      → Lags l p'
  unfolding read
  read-Lags l p p' got k u e h = elim (Bool-cases (can_read q p)) [
    | inl able ↦
        received-Lags l (fetch q (suc (q.size p.in_pipe)) p.in_pipe).0 got
          (record p { in_pipe = (fetch q (suc (q.size p.in_pipe)) p.in_pipe).1 }) p' k u
          (rw able at e)
          (record { mark = h.mark; multiple = h.multiple; behind = h.behind; close = h.close })
    | inr unable ↦ ground arith
  ]

-- No wake-up is lost. Once the reader has taken every message that was counted, the last notice that
-- it sent makes a blocked writer writable: the writer that handles it can write again. Both ends
-- were set up with the same high water mark, and the counters have not wrapped.
pub caught_up-check_write :
    {Q : Type 0} (h l : ℕ) (writer reader : Pipe Q)
    → writer.hwm ≡ pos h
    → compute_lwm (pos h) ≡ pos l
    → 0 < h
    → h < 2 ^ 31
    → Lags l reader
    → writer.msgs_written ≡ reader.msgs_read
    → reader.msgs_read < 2 ^ 64
    → writer.state ≡ active
    → (check_write (process_activate_write (notified reader.sent) writer)).0 ≡ true
unfolding check_write process_activate_write compute_lwm
caught_up-check_write h l writer reader e c k b lag w u s = ground arith
