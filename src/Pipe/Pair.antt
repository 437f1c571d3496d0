-- ===== src/Pipe/Pair.antt =====
-- Two ends of a pipe and the two commands of the termination handshake on their way between them
-- (src/pipe/pipe.cpp, delivered by src/core/object.cpp). Each mailbox is first in, first out, and an
-- end sends its request before its acknowledgement, so what is still on its way can be read off the
-- commands that the one end sent and what the other took.
use serverlink.Prelude.{
  ◌≡◌, ◌≢◌, refl, sym, ap, ◌∙◌, Bool, true, false, none, some, arith, inl, inr, ◌||◌, ◌⊎◌,
  Bool-cases,
}
use serverlink.Prelude.Int.{ℤ}
use serverlink.Pipe.Queue.{YpipeBase}
use serverlink.Pipe.Endpoint.{State, Pipe, create}
use serverlink.Pipe.Term.{process_pipe_term, process_pipe_term_ack}
use serverlink.Pipe.Handshake.{sent_term, sent_ack, got_term, IsOrderly}
use serverlink.Pipe.Ops.{Op, apply, apply-Local, LocalTo-some}
use serverlink.Pipe.Ends.{
  End, asked, acked, Kept, asked_lem, acked_lem, here-Kept, process_pipe_term_ack-Kept,
  process_pipe_term-Moves,
}

-- The peer `b` sent its request, and `a` did not take it yet.
abbrev pub TermArrives : {Q : Type 0} → End Q → End Q → Type 0
TermArrives a b = (a.gone ≡ false) × (asked b ≡ true) × (got_term a.pipe.state ≡ false)

-- The peer `b` sent its acknowledgement, `a` did not take it yet, and no request is ahead of it.
abbrev pub AckArrives : {Q : Type 0} → End Q → End Q → Type 0
AckArrives a b =
    (a.gone ≡ false) × (acked b ≡ true) × ((asked b ≡ false) ⊎ (got_term a.pipe.state ≡ true))

module _ {Q : Type 0} (q : YpipeBase Q) where
  -- What the end `a` can do while its peer is `b`.
  pub data Act (a b : End Q) : End Q → Type 0 where
    call :
        (op : Op Q) {p : Pipe Q}
        → a.gone ≡ false
        → apply q op a.pipe ≡ some p
        → Act a b (record { pipe = p; gone = false })
    take_term :
        {p : Pipe Q}
        → TermArrives a b
        → process_pipe_term q a.pipe ≡ some p
        → Act a b (record { pipe = p; gone = false })
    take_ack :
        {p : Pipe Q}
        → AckArrives a b
        → process_pipe_term_ack q a.pipe ≡ some p
        → Act a b (record { pipe = p; gone = true })

  pub data Reach (a b : End Q) : End Q → End Q → Type 0 where
    start : Reach a b a b
    left : {c d c' : End Q} → Reach a b c d → Act c d c' → Reach a b c' d
    right : {c d d' : End Q} → Reach a b c d → Act d c d' → Reach a b c d'

  -- What an end has taken, the other has sent.
  pub record Consistent (a b : End Q) : Type 0 where
    pub term_left : got_term a.pipe.state ≡ true → asked b ≡ true
    pub term_right : got_term b.pipe.state ≡ true → asked a ≡ true
    pub ack_left : a.gone ≡ true → acked b ≡ true
    pub ack_right : b.gone ≡ true → acked a ≡ true
    pub kept_left : Kept a
    pub kept_right : Kept b

  pub Consistent-swap : {a b : End Q} → Consistent a b → Consistent b a
  Consistent-swap c = record {
    term_left = c.term_right;
    term_right = c.term_left;
    ack_left = c.ack_right;
    ack_right = c.ack_left;
    kept_left = c.kept_right;
    kept_right = c.kept_left;
  }

  pub or_mono : (x y y' : Bool) → (y ≡ true → y' ≡ true) → (x || y) ≡ true → x ≡ false → y' ≡ true
  or_mono true y y' h t f = cc
  or_mono false y y' h t f = h t

  moved-Consistent :
      (a b : End Q) (p : Pipe Q)
      → a.gone ≡ false
      → (got_term p.state ≡ true → asked b ≡ true)
      → (sent_term a.pipe.state ≡ true → sent_term p.state ≡ true)
      → (sent_ack a.pipe.state ≡ true → sent_ack p.state ≡ true)
      → IsOrderly p
      → Consistent a b
      → Consistent (record { pipe = p; gone = false }) b
  moved-Consistent a b p g got term ack o c =
      let e : End Q = record { pipe = p; gone = false } in
      let k : Kept e = here-Kept p o in
      record {
        term_left = got;
        term_right = λ h. asked_lem e k ∙ term (sym (asked_lem a c.kept_left) ∙ c.term_right h);
        ack_left = λ h. cc;
        ack_right = λ h.
            acked_lem e k
            ∙ or_mono a.gone _ _ ack (sym (acked_lem a c.kept_left) ∙ c.ack_right h) g;
        kept_left = k;
        kept_right = c.kept_right;
      }

  gone-Consistent :
      (a b : End Q) (p : Pipe Q)
      → acked b ≡ true
      → process_pipe_term_ack q a.pipe ≡ some p
      → IsOrderly a.pipe
      → Consistent a b
      → Consistent (record { pipe = p; gone = true }) b
  gone-Consistent a b p k e o c =
      let (same, kept) = process_pipe_term_ack-Kept q a.pipe p e o in
      let d : End Q = record { pipe = p; gone = true } in
      record {
        term_left = λ h. c.term_left (ap got_term (sym same) ∙ h);
        term_right = λ h.
            asked_lem d kept ∙ ap sent_term same ∙ sym (asked_lem a c.kept_left) ∙ c.term_right h;
        ack_left = λ h. k;
        ack_right = λ h. kept.left refl;
        kept_left = kept;
        kept_right = c.kept_right;
      }

  Act-Consistent : {a b a' : End Q} → Act a b a' → Consistent a b → Consistent a' b
  Act-Consistent {a} {b} (call op {p = p} g e) c =
      let l = LocalTo-some q a.pipe _ p e (apply-Local q op a.pipe (c.kept_left.here g)) in
      moved-Consistent a b p g (λ h. c.term_left (sym l.got ∙ h)) l.term l.ack l.orderly c
  Act-Consistent {a} {b} (take_term {p = p} t e) c =
      let (term, ack, orderly) = process_pipe_term-Moves q a.pipe p e (c.kept_left.here t.0) in
      moved-Consistent a b p t.0 (λ h. t.1) term ack orderly c
  Act-Consistent {a} {b} (take_ack {p = p} k e) c =
      gone-Consistent a b p k.1 e (c.kept_left.here k.0) c

  pub Reach-Consistent : {a b c d : End Q} → Reach a b c d → Consistent a b → Consistent c d
  Reach-Consistent start h = h
  Reach-Consistent (left r s) h = Act-Consistent s (Reach-Consistent r h)
  Reach-Consistent (right r s) h =
      Consistent-swap (Act-Consistent s (Consistent-swap (Reach-Consistent r h)))

  pub term_taken : (p : Pipe Q) → got_term p.state ≡ false → process_pipe_term q p ≢ none
  unfolding process_pipe_term
  term_taken p h = ground arith

  pub ack_taken :
      (p : Pipe Q)
      → (sent_term p.state ≡ true) ⊎ (sent_ack p.state ≡ true)
      → process_pipe_term_ack q p ≢ none
  unfolding process_pipe_term_ack
  ack_taken p h = ground arith

  pub ack_expected :
      (a b : End Q)
      → AckArrives a b
      → Consistent a b
      → (sent_term a.pipe.state ≡ true) ⊎ (sent_ack a.pipe.state ≡ true)
  ack_expected a b (g, k, f) c = from (Bool-cases b.gone)
    where
      got : (s : State) → sent_ack s ≡ true → got_term s ≡ true
      got s h = ground arith

      from :
          (b.gone ≡ true) ⊎ (b.gone ≡ false)
          → (sent_term a.pipe.state ≡ true) ⊎ (sent_ack a.pipe.state ≡ true)
      from (inl h) =
          inr (or_mono a.gone _ _ (λ x. x) (sym (acked_lem a c.kept_left) ∙ c.ack_right h) g)
      from (inr h) = inl (
          sym (asked_lem a c.kept_left)
          ∙ c.term_right
              (got _ (or_mono b.gone _ _ (λ x. x) (sym (acked_lem b c.kept_right) ∙ k) h)))

  abbrev pub fresh : Q → Q → ℤ → ℤ → Bool → End Q
  fresh inq outq inhwm outhwm conflate = record {
    pipe = create inq outq inhwm outhwm conflate;
    gone = false;
  }

  create-IsOrderly : (inq outq : Q) (i o : ℤ) (b : Bool) → IsOrderly (create inq outq i o b)
  unfolding create
  create-IsOrderly inq outq i o b = record { terms = refl; acks = refl; open_until_ack = refl }

  pub fresh-Consistent :
      (inq outq inq' outq' : Q) (i o i' o' : ℤ) (b b' : Bool)
      → Consistent (fresh inq outq i o b) (fresh inq' outq' i' o' b')
  unfolding create
  fresh-Consistent inq outq inq' outq' i o i' o' b b' = record {
    term_left = λ h. cc;
    term_right = λ h. cc;
    ack_left = λ h. cc;
    ack_right = λ h. cc;
    kept_left = here-Kept _ (create-IsOrderly inq outq i o b);
    kept_right = here-Kept _ (create-IsOrderly inq' outq' i' o' b');
  }

  pub Reach-swap : {a b c d : End Q} → Reach a b c d → Reach b a d c
  Reach-swap start = start
  Reach-swap (left r s) = right (Reach-swap r) s
  Reach-swap (right r s) = left (Reach-swap r) s
