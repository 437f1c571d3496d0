-- ===== src/Pipe/Closing.antt =====
-- The termination handshake of src/pipe/pipe.cpp between the two ends of a pair: it is safe and does
-- not get stuck.
use serverlink.Prelude.{
  ◌≡◌, ◌≢◌, ap, sym, ◌∙◌, Bool, true, false, none, some, arith, inl, inr, ◌⊎◌, not, Bool-cases,
  Option-cases,
}
use serverlink.Prelude.Int.{ℤ}
use serverlink.Pipe.Queue.{YpipeBase}
use serverlink.Pipe.Endpoint.{waiting_for_delimiter, Pipe}
use serverlink.Pipe.Term.{process_pipe_term, process_pipe_term_ack}
use serverlink.Pipe.Handshake.{sent_term}
use serverlink.Pipe.Pair.{
  TermArrives, AckArrives, Reach, Consistent, Consistent-swap, Reach-Consistent, term_taken,
  ack_taken, ack_expected, fresh, fresh-Consistent, or_mono,
}
use serverlink.Pipe.Ends.{End, asked_lem, acked_lem}

module _ {Q : Type 0} (q : YpipeBase Q) where
  -- Whatever the two users of a new pair of pipes do and however the commands interleave, once an end
  -- is gone, with the queue that it read from, its peer is gone too or has no outbound queue left, so
  -- that nothing is written to a queue that was freed. The end is the left one of the two; `Reach-swap`
  -- exchanges them.
  pub freed_unused :
      (inq outq inq' outq' : Q) (i o i' o' : ℤ) (b b' : Bool) {c d : End Q}
      → Reach q (fresh q inq outq i o b) (fresh q inq' outq' i' o' b') c d
      → c.gone ≡ true
      → (d.gone ≡ true) ⊎ (d.pipe.out_open ≡ false)
  freed_unused inq outq inq' outq' i o i' o' b b' {c} {d} r g =
      let v = Reach-Consistent q r (fresh-Consistent q inq outq inq' outq' i o i' o' b b') in
      elim (Bool-cases d.gone) [
        | inl h ↦ inl h
        | inr h ↦ inr (
            (v.kept_right.here h).open_until_ack
            ∙ ap not
                (or_mono q d.gone _ _ (λ x. x) (sym (acked_lem d v.kept_right) ∙ v.ack_left g) h))
      ]

  -- Whatever the two users of a new pair of pipes do and however the commands interleave, an end
  -- never fails an assertion when the acknowledgement of its request arrives. The end is the left
  -- one of the two; `Reach-swap` exchanges them.
  pub process_pipe_term_ack_safe :
      (inq outq inq' outq' : Q) (i o i' o' : ℤ) (b b' : Bool) {c d : End Q}
      → Reach q (fresh q inq outq i o b) (fresh q inq' outq' i' o' b') c d
      → AckArrives c d
      → process_pipe_term_ack q c.pipe ≢ none
  process_pipe_term_ack_safe inq outq inq' outq' i o i' o' b b' {c} {d} r k = ack_taken q c.pipe (
      ack_expected q c d k
        (Reach-Consistent q r (fresh-Consistent q inq outq inq' outq' i o i' o' b b')))

  -- A command of the handshake is on its way to the end `a`, and `a` can take it.
  abbrev pub Takes : End Q → End Q → Type 0
  Takes a b =
      (p : Pipe Q) × ((TermArrives a b × (process_pipe_term q a.pipe ≡ some p))
        ⊎ (AckArrives a b × (process_pipe_term_ack q a.pipe ≡ some p)))

  term-Takes : (a b : End Q) → TermArrives a b → Takes a b
  unfolding process_pipe_term
  term-Takes a b t = elim (Option-cases (process_pipe_term q a.pipe)) [
    | inl e ↦ absurd (term_taken q a.pipe t.2 e)
    | inr (p, e) ↦ (p, inl (t, e))
  ]

  ack-Takes : (a b : End Q) → Consistent q a b → AckArrives a b → Takes a b
  ack-Takes a b c k = elim (Option-cases (process_pipe_term_ack q a.pipe)) [
    | inl e ↦ absurd (ack_taken q a.pipe (ack_expected q a b k c) e)
    | inr (p, e) ↦ (p, inr (k, e))
  ]

  on_the_way :
      (c d : End Q)
      → Consistent q c d
      → sent_term c.pipe.state ≡ true
      → c.pipe.state ≢ waiting_for_delimiter
      → d.pipe.state ≢ waiting_for_delimiter
      → ((c.gone ≡ true) × (d.gone ≡ true))
        ⊎ ((TermArrives c d ⊎ TermArrives d c) ⊎ (AckArrives c d ⊎ AckArrives d c))
  on_the_way c d v s wc wd = ground (
    arith,
    asked_lem c v.kept_left,
    asked_lem d v.kept_right,
    acked_lem c v.kept_left,
    acked_lem d v.kept_right,
  )

  -- The handshake does not get stuck, whatever the users of a new pair do: once an end has asked to
  -- terminate, and while neither holds back its acknowledgement until it has read a delimiter, both
  -- are gone or a command is on its way to an end that can take it. The end that asked is the left one
  -- of the two; `Reach-swap` exchanges them.
  pub handshake_progress :
      (inq outq inq' outq' : Q) (i o i' o' : ℤ) (b b' : Bool) {c d : End Q}
      → Reach q (fresh q inq outq i o b) (fresh q inq' outq' i' o' b') c d
      → sent_term c.pipe.state ≡ true
      → c.pipe.state ≢ waiting_for_delimiter
      → d.pipe.state ≢ waiting_for_delimiter
      → ((c.gone ≡ true) × (d.gone ≡ true)) ⊎ (Takes c d ⊎ Takes d c)
  handshake_progress inq outq inq' outq' i o i' o' b b' {c} {d} r s wc wd =
      let v = Reach-Consistent q r (fresh-Consistent q inq outq inq' outq' i o i' o' b b') in
      elim (on_the_way c d v s wc wd) [
        | inl g ↦ inl g
        | inr (inl (inl t)) ↦ inr (inl (term-Takes c d t))
        | inr (inl (inr t)) ↦ inr (inr (term-Takes d c t))
        | inr (inr (inl k)) ↦ inr (inl (ack-Takes c d v k))
        | inr (inr (inr k)) ↦ inr (inr (ack-Takes d c (Consistent-swap q v) k))
      ]
