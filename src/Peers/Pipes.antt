-- ===== src/Peers/Pipes.antt =====
-- The pipes of src/pipe/pipe.cpp as the pipes of a socket: a list of ends over any queue, with the ids that
-- the socket gave them.
use serverlink.Prelude.{
  ℕ, zero, suc, ◌+◌, ◌≡◌, ◌≤◌, ◌<◌, ◌==◌, refl, sym, ap, arith, Bool, true, false, if◌then◌else◌,
  Option, none, some, List, [], ◌∷◌, Bytes, get_elem?, set, Option-cases, Bool-cases, inl, inr,
}
use mathlib.Core.Path.{subst}
use serverlink.Msg.{Msg, is_credential, is_delimiter}
use serverlink.Peers.{Peers}
use serverlink.Pipe.Queue.{YpipeBase}
use serverlink.Pipe.Endpoint.{Pipe, check_write, check_hwm}
use serverlink.Pipe.Transfer.{
  fetch, received, with_none, process_delimiter, rollback, count_read, can_read, read, write, flush,
}
use serverlink.Pipe.Term.{terminate}

-- The number of a pipe is its place in `pipes`; `ids` holds `_router_socket_routing_id` of each. After a failed
-- assertion `broken` is set.
pub record Pipes (Q : Type 0) : Type 0 where
  pub pipes : List (Pipe Q)
  pub ids : ℕ → Bytes
  pub broken : Bool

module _ {Q : Type 0} (q : YpipeBase Q) where
  abbrev pub total : List (Pipe Q) → ℕ
  total [] = 0
  total (e ∷ es) = q.size e.in_pipe + total es

  abbrev put : ℕ → Pipe Q → Pipes Q → Pipes Q
  put p e s = record s { pipes = set s.pipes p e }

  abbrev put_or_break : ℕ → Option (Pipe Q) → Pipes Q → Pipes Q
  put_or_break p none s = record s { broken = true }
  put_or_break p (some e) s = put p e s

  abbrev put_read : ℕ → Option (Option Msg × Pipe Q) → Pipes Q → Option Msg × Pipes Q
  put_read p none s = (none, record s { broken = true })
  put_read p (some (m, e)) s = (m, put p e s)

  abbrev put_result : ℕ → Bool × Pipe Q → Pipes Q → Bool × Pipes Q
  put_result p (b, e) s = (b, put p e s)

  abbrev read_at : ℕ → Pipes Q → Option Msg × Pipes Q
  read_at p s = elim (get_elem? s.pipes p) [ none ↦ (none, s) | some e ↦ put_read p (read q e) s ]

  abbrev check_write_at : ℕ → Pipes Q → Bool × Pipes Q
  check_write_at p s = elim (get_elem? s.pipes p) [
    | none ↦ (false, s)
    | some e ↦ put_result p (check_write e) s
  ]

  abbrev check_hwm_at : ℕ → Pipes Q → Bool
  check_hwm_at p s = elim (get_elem? s.pipes p) [ none ↦ false | some e ↦ check_hwm e ]

  abbrev write_at : ℕ → Msg → Pipes Q → Bool × Pipes Q
  write_at p m s = elim (get_elem? s.pipes p) [
    | none ↦ (false, s)
    | some e ↦ put_result p (write q m e) s
  ]

  abbrev flush_at : ℕ → Pipes Q → Pipes Q
  flush_at p s = elim (get_elem? s.pipes p) [ none ↦ s | some e ↦ put p (flush q e) s ]

  abbrev rollback_at : ℕ → Pipes Q → Pipes Q
  rollback_at p s = elim (get_elem? s.pipes p) [
    | none ↦ s
    | some e ↦ put_or_break p (rollback q e) s
  ]

  abbrev terminate_at : ℕ → Bool → Pipes Q → Pipes Q
  terminate_at p delay s = elim (get_elem? s.pipes p) [
    | none ↦ s
    | some e ↦ put_or_break p (terminate q delay e) s
  ]

  total-set :
      (es : List (Pipe Q)) (p : ℕ) (e e' : Pipe Q)
      → get_elem? es p ≡ some e
      → total (set es p e') + q.size e.in_pipe ≡ total es + q.size e'.in_pipe
  total-set [] p e e' h = cc
  total-set (x ∷ es) zero e e' h = ground (arith, h)
  total-set (x ∷ es) (suc p) e e' h = omega (arith, total-set es p e e' h)

  -- At most `n` items are left, and fewer if a message was read.
  Within : ℕ → Option (Option Msg × Pipe Q) → Type 0
  Within n none = Unit
  Within n (some (none, e)) = q.size e.in_pipe ≤ n
  Within n (some (some m, e)) = q.size e.in_pipe < n

  size-fetch :
      (f : ℕ) (inq : Q)
      → (q.size (fetch q f inq).1 ≤ q.size inq)
        × ((m : Msg) → (fetch q f inq).0 ≡ some m → q.size (fetch q f inq).1 < q.size inq)
  unfolding fetch
  size-fetch zero inq = ground arith
  size-fetch (suc f) inq = elim (Option-cases (q.read inq).0) [
    | inl e ↦ ground (arith, e, q.read_keeps inq e)
    | inr (m, e) ↦ ground (
      arith,
      e,
      q.read_shrinks inq m e,
      size-fetch f (q.read inq).1,
      Bool-cases (is_credential m),
    )
  ]

  process_delimiter-Within :
      (n : ℕ) (e : Pipe Q) → q.size e.in_pipe ≤ n → Within n (with_none q (process_delimiter q e))
  unfolding process_delimiter rollback Within
  process_delimiter-Within n e h = ground arith

  received-Within :
      (n : ℕ) (m : Option Msg) (e : Pipe Q)
      → q.size e.in_pipe ≤ n
      → ((x : Msg) → m ≡ some x → q.size e.in_pipe < n)
      → Within n (received q m e)
  unfolding received Within
  received-Within n none e h l = h
  received-Within n (some m) e h l = elim (Bool-cases (is_delimiter m)) [
    | inl d ↦ rw (received, d) (process_delimiter-Within n e h)
    | inr d ↦ rw (received, d) (unfold count_read in ground (arith, l m refl))
  ]

  read-Within : (e : Pipe Q) → Within (q.size e.in_pipe) (read q e)
  unfolding read Within
  read-Within e =
      let f : ℕ = suc (q.size e.in_pipe) in
      let (le, lt) = size-fetch f e.in_pipe in
      elim (Bool-cases (can_read q e)) [
        | inl able ↦
            rw (read, able)
              (received-Within (q.size e.in_pipe) (fetch q f e.in_pipe).0
                (record e { in_pipe = (fetch q f e.in_pipe).1 }) le lt)
        | inr unable ↦ rw (read, unable) (omega arith)
      ]

  -- What reading leaves: as many items at most, fewer after a message, and the ids.
  abbrev Left : ℕ → Pipes Q → Option Msg × Pipes Q → Type 0
  Left n s x =
      (total x.1.pipes ≤ n) × ((m : Msg) → x.0 ≡ some m → total x.1.pipes < n) × (x.1.ids ≡ s.ids)

  put_read-Left :
      (p : ℕ) (e : Pipe Q) (s : Pipes Q) (r : Option (Option Msg × Pipe Q))
      → get_elem? s.pipes p ≡ some e
      → Within (q.size e.in_pipe) r
      → Left (total s.pipes) s (put_read p r s)
  unfolding Within
  put_read-Left p e s none h w = (omega arith, λ m k. cc, refl)
  put_read-Left p e s (some (none, e')) h w =
      (omega (arith, total-set s.pipes p e e' h, w), λ m k. cc, refl)
  put_read-Left p e s (some (some x, e')) h w =
      let l : total (set s.pipes p e') < total s.pipes =
        omega (arith, total-set s.pipes p e e' h, w) in
      (omega (arith, l), λ m k. l, refl)

  pub read_at-Left : (p : ℕ) (s : Pipes Q) → Left (total s.pipes) s (read_at p s)
  read_at-Left p s = elim (Option-cases (get_elem? s.pipes p)) [
    | inl h ↦
        (let same : read_at p s ≡ (none, s) = rw (read_at, h) refl in
          subst (λ x. Left (total s.pipes) s x) (sym same) (omega arith, λ m e. cc, refl))
    | inr (e, h) ↦
        (let same : read_at p s ≡ put_read p (read q e) s = rw (read_at, h) refl in
          subst (λ x. Left (total s.pipes) s x) (sym same)
            (put_read-Left p e s (read q e) h (read-Within e)))
  ]

  ids-put_or_break : (p : ℕ) (r : Option (Pipe Q)) (s : Pipes Q) → (put_or_break p r s).ids ≡ s.ids
  ids-put_or_break p none s = refl
  ids-put_or_break p (some e) s = refl

  pub ids-check_write_at : (p : ℕ) (s : Pipes Q) → (check_write_at p s).1.ids ≡ s.ids
  ids-check_write_at p s = ground (arith, Option-cases (get_elem? s.pipes p))

  pub ids-write_at : (p : ℕ) (m : Msg) (s : Pipes Q) → (write_at p m s).1.ids ≡ s.ids
  ids-write_at p m s = ground (arith, Option-cases (get_elem? s.pipes p))

  pub ids-flush_at : (p : ℕ) (s : Pipes Q) → (flush_at p s).ids ≡ s.ids
  ids-flush_at p s = ground (arith, Option-cases (get_elem? s.pipes p))

  pub ids-rollback_at : (p : ℕ) (s : Pipes Q) → (rollback_at p s).ids ≡ s.ids
  ids-rollback_at p s = elim (Option-cases (get_elem? s.pipes p)) [
    | inl h ↦ rw (rollback_at, h) refl
    | inr (e, h) ↦ rw (rollback_at, h) (ids-put_or_break p (rollback q e) s)
  ]

  pub ids-terminate_at : (p : ℕ) (delay : Bool) (s : Pipes Q) → (terminate_at p delay s).ids ≡ s.ids
  ids-terminate_at p delay s = elim (Option-cases (get_elem? s.pipes p)) [
    | inl h ↦ rw (terminate_at, h) refl
    | inr (e, h) ↦ rw (terminate_at, h) (ids-put_or_break p (terminate q delay e) s)
  ]

  pub at_id : {f g : ℕ → Bytes} (x : ℕ) → f ≡ g → f x ≡ g x
  at_id x e = ap (λ h. h x) e

  -- The modelled pipes are what a socket relies on.
  abbrev pub pipe_peers : Peers (Pipes Q)
  pipe_peers = record {
    read = read_at;
    check_write = check_write_at;
    check_hwm = check_hwm_at;
    write = write_at;
    flush = flush_at;
    rollback = rollback_at;
    terminate = terminate_at;
    get_routing_id = λ p s. s.ids p;
    set_routing_id = λ p id s. record s { ids = λ x. if p == x then id else s.ids x };
    pending = λ s. total s.pipes;
    pending-read_some = λ p m s h. (read_at-Left p s).1 m h;
    pending-read_none = λ p s h. (read_at-Left p s).0;
    id-set = λ p x id s. refl;
    id-read = λ p x s. at_id x (read_at-Left p s).2;
    id-check_write = λ p x s. at_id x (ids-check_write_at p s);
    id-write = λ p x m s. at_id x (ids-write_at p m s);
    id-flush = λ p x s. at_id x (ids-flush_at p s);
    id-rollback = λ p x s. at_id x (ids-rollback_at p s);
    id-terminate = λ p x delay s. at_id x (ids-terminate_at p delay s);
  }
