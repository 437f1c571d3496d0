-- ===== src/Protocol/Stream.antt =====
-- The input loop of src/protocol/stream_engine_base.cpp over the decoder, with every message
-- accepted by the session, and its independence of how the stream is cut into reads.
use serverlink.Prelude.{
  ℕ, zero, suc, ◌≤◌, ◌<◌, ◌≡◌, refl, sym, ap, ◌∙◌, Bool, true, false, List, [], ◌∷◌, ◌++◌, Bytes,
  length, arith, if◌then◌else◌, inl, inr, Bool-cases,
}
use serverlink.Msg.{Msg}
use serverlink.Protocol.Decoder.{
  Decoder, Rc, more, ready, failed, out_of_fuel, absorb, run_steps, decode,
}
use serverlink.Protocol.Chunks.{
  scan, scan-cons, resume, scan-nil, decode-scan, Settled, run_steps-Settled,
}

-- The messages handed to the session, whether the stream was given up, and the decoder after it.
pub record Input : Type 0 where
  pub messages : List Msg
  pub gave_up : Bool
  pub decoder : Decoder

unfoldable pub deliver : Msg → Input → Input
deliver m i = record i { messages = m ∷ i.messages }

-- `in_place` says of each call whether `data == m_read_pos`.
unfoldable pub in_event : (Decoder → Bytes → Bool) → ℕ → Decoder → Bytes → Input
unfolding deliver
in_event in_place f d [] = record { messages = []; gave_up = false; decoder = d }
in_event in_place zero d (x ∷ xs) = record { messages = []; gave_up = true; decoder = d }
in_event in_place (suc f) d (x ∷ xs) =
    let (rc, rest, d') = decode (in_place d (x ∷ xs)) d (x ∷ xs) in
    elim rc [
      | ready ↦ deliver d'.in_progress (in_event in_place f d' rest)
      | more ↦ record { messages = []; gave_up = false; decoder = d' }
      | other ↦ record { messages = []; gave_up = true; decoder = d' }
    ]

parse_on : Rc × Decoder → (Decoder → Input) → Input
parse_on (more, d) later = later d
parse_on (ready, d) later = deliver d.in_progress (later d)
parse_on (other, d) later = record { messages = []; gave_up = true; decoder = d }

-- The same stream read one byte at a time.
unfoldable pub parse : Bytes → Decoder → Input
unfolding parse_on
parse [] d = record { messages = []; gave_up = false; decoder = d }
parse (x ∷ xs) d = parse_on (run_steps (absorb d (x ∷ []))) (λ e. parse xs e)

abbrev pub finish : Rc × Bytes × Decoder → Input
finish (more, rest, d) = record { messages = []; gave_up = false; decoder = d }
finish (ready, rest, d) = deliver d.in_progress (parse rest d)
finish (other, rest, d) = record { messages = []; gave_up = true; decoder = d }

parse_on-finish :
    (r : Rc × Decoder) (xs : Bytes)
    → ((d : Decoder) → parse xs d ≡ finish (scan d xs))
    → parse_on r (λ e. parse xs e) ≡ finish (resume r xs)
unfolding parse_on
parse_on-finish (more, d) xs ih = ih d
parse_on-finish (ready, d) xs ih = refl
parse_on-finish (other, d) xs ih = refl

pub parse-finish : (xs : Bytes) (d : Decoder) → parse xs d ≡ finish (scan d xs)
unfolding parse
parse-finish [] d = rw (scan-nil d)
parse-finish (x ∷ xs) d = rw (scan-cons d x xs) (parse_on-finish _ xs (λ e. parse-finish xs e))

-- What a decoded message leaves: less input than there was, and a decoder that waits for more.
abbrev Advances : ℕ → Rc × Bytes × Decoder → Type 0
Advances n (ready, rest, d) = (length rest ≤ n) × (0 < d.to_read)
Advances n (other, rest, d) = Unit

Advances-mono : (m n : ℕ) (r : Rc × Bytes × Decoder) → m ≤ n → Advances m r → Advances n r
Advances-mono m n (ready, rest, d) k h = omega arith
Advances-mono m n (other, rest, d) k h = tt

resume-Advances :
    (r : Rc × Decoder) (xs : Bytes)
    → Settled r
    → ((d : Decoder) → Advances (length xs) (scan d xs))
    → Advances (length xs) (resume r xs)
resume-Advances (more, d) xs h ih = ih d
resume-Advances (ready, d) xs h ih = (omega arith, h)
resume-Advances (failed, d) xs h ih = tt
resume-Advances (out_of_fuel, d) xs h ih = tt

scan-Advances : (xs : Bytes) (d : Decoder) → Advances (length xs) (scan d xs)
scan-Advances [] d = rw (scan-nil d) tt
scan-Advances (x ∷ xs) d = rw (scan-cons d x xs) (
    Advances-mono (length xs) (suc (length xs)) _ (omega arith)
      (resume-Advances _ xs (run_steps-Settled _) (scan-Advances xs)))

scan_cons-Advances : (x : ℕ) (xs : Bytes) (d : Decoder) → Advances (length xs) (scan d (x ∷ xs))
scan_cons-Advances x xs d =
    rw (scan-cons d x xs) (resume-Advances _ xs (run_steps-Settled _) (scan-Advances xs))

module _ (in_place : Decoder → Bytes → Bool) where
  -- How the loop goes on after a call of `decode`.
  abbrev event_on : ℕ → Rc × Bytes × Decoder → Input
  event_on f (ready, rest, d) = deliver d.in_progress (in_event in_place f d rest)
  event_on f (more, rest, d) = record { messages = []; gave_up = false; decoder = d }
  event_on f (other, rest, d) = record { messages = []; gave_up = true; decoder = d }

  in_event-cons :
      (f : ℕ) (d : Decoder) (x : ℕ) (xs : Bytes)
      → in_event in_place (suc f) d (x ∷ xs) ≡ event_on f (decode (in_place d (x ∷ xs)) d (x ∷ xs))
  unfolding in_event
  in_event-cons f d x xs = ground arith

  in_event-nil : (f : ℕ) (d : Decoder) → in_event in_place f d [] ≡ parse [] d
  unfolding in_event parse
  in_event-nil zero d = refl
  in_event-nil (suc f) d = refl

  event_on-finish :
      (f : ℕ) (r : Rc × Bytes × Decoder)
      → Advances f r
      → ((d : Decoder) (rest : Bytes)
          → length rest ≤ f
          → 0 < d.to_read
          → in_event in_place f d rest ≡ parse rest d)
      → event_on f r ≡ finish r
  event_on-finish f (ready, rest, d) h ih = ap (deliver d.in_progress) (ih d rest h.0 h.1)
  event_on-finish f (more, rest, d) h ih = refl
  event_on-finish f (failed, rest, d) h ih = refl
  event_on-finish f (out_of_fuel, rest, d) h ih = refl

  -- The loop with fuel for each byte reads the stream as the byte-wise reader does.
  in_event-parse_upto :
      (allowed : (d : Decoder) (xs : Bytes) → in_place d xs ≡ true → length xs ≤ d.to_read) (f : ℕ)
      (d : Decoder) (xs : Bytes)
      → length xs ≤ f
      → 0 < d.to_read
      → in_event in_place f d xs ≡ parse xs d
  in_event-parse_upto allowed f d [] h k = in_event-nil f d
  in_event-parse_upto allowed zero d (x ∷ xs) h k = absurd (omega arith)
  in_event-parse_upto allowed (suc f) d (x ∷ xs) h k =
      in_event-cons f d x xs
      ∙ ap (event_on f) (decode-scan (in_place d (x ∷ xs)) d (x ∷ xs) k (allowed d (x ∷ xs)))
      ∙ event_on-finish f _
          (Advances-mono (length xs) f _ (omega arith) (scan_cons-Advances x xs d))
          (λ d' rest h' k'. in_event-parse_upto allowed f d' rest h' k')
      ∙ sym (parse-finish (x ∷ xs) d)

-- A later read goes on where the stream stands, unless it was given up.
unfoldable pub then_read : Input → (Decoder → Input) → Input
then_read i later =
    if i.gave_up
    then i
    else let j = later i.decoder in
      record { messages = i.messages ++ j.messages; gave_up = j.gave_up; decoder = j.decoder }

then_read-deliver :
    (m : Msg) (i : Input) (later : Decoder → Input)
    → then_read (deliver m i) later ≡ deliver m (then_read i later)
unfolding then_read deliver
then_read-deliver m i later = ground arith

parse_on-then_read :
    (r : Rc × Decoder) (f g later : Decoder → Input)
    → ((d : Decoder) → f d ≡ then_read (g d) later)
    → parse_on r f ≡ then_read (parse_on r g) later
unfolding parse_on
parse_on-then_read (more, d) f g later h = h d
parse_on-then_read (ready, d) f g later h =
    ap (deliver d.in_progress) (h d) ∙ sym (then_read-deliver d.in_progress (g d) later)
parse_on-then_read (failed, d) f g later h = unfold then_read in refl
parse_on-then_read (out_of_fuel, d) f g later h = unfold then_read in refl

-- Reading one stream and then another is reading the one followed by the other, whatever state the
-- decoder is in: no bytes belong to both, and a stream that was given up stays so.
pub parse-append :
    (xs ys : Bytes) (d : Decoder) → parse (xs ++ ys) d ≡ then_read (parse xs d) (parse ys)
unfolding parse
parse-append [] ys d = unfold then_read in refl
parse-append (x ∷ xs) ys d =
    parse_on-then_read _ (parse (xs ++ ys)) (parse xs) (parse ys) (parse-append xs ys)

-- Between two reads the decoder waits for a byte at least.
abbrev Waits : Input → Type 0
Waits i = i.gave_up ≡ false → 0 < i.decoder.to_read

parse_on-Waits :
    (r : Rc × Decoder) (f : Decoder → Input)
    → Settled r
    → ((d : Decoder) → 0 < d.to_read → Waits (f d))
    → Waits (parse_on r f)
unfolding parse_on deliver
parse_on-Waits (more, d) f h k = k d h
parse_on-Waits (ready, d) f h k = k d h
parse_on-Waits (failed, d) f h k = λ e. cc
parse_on-Waits (out_of_fuel, d) f h k = λ e. cc

parse-Waits : (xs : Bytes) (d : Decoder) → 0 < d.to_read → Waits (parse xs d)
unfolding parse
parse-Waits [] d h = λ e. h
parse-Waits (x ∷ xs) d h = parse_on-Waits _ (parse xs) (run_steps-Settled _) (parse-Waits xs)

-- One call of `handle_read` for each block that arrives.
unfoldable pub reads : (Decoder → Bytes → Bool) → List Bytes → Decoder → Input
reads in_place [] d = record { messages = []; gave_up = false; decoder = d }
reads in_place (c ∷ cs) d = then_read (in_event in_place (length c) d c) (reads in_place cs)

abbrev pub concat : List Bytes → Bytes
concat [] = []
concat (c ∷ cs) = c ++ concat cs

then_read-cong :
    (i : Input) (f g : Decoder → Input)
    → Waits i
    → ((d : Decoder) → 0 < d.to_read → f d ≡ g d)
    → then_read i f ≡ then_read i g
unfolding then_read
then_read-cong i f g w h = elim (Bool-cases i.gave_up) [
  | inl stop ↦ ground arith
  | inr go ↦ ground (arith, h i.decoder (w go))
]

-- However the stream is cut into blocks, the messages that the loop hands over, the verdict on the
-- stream and the decoder's state are those of reading all its bytes one at a time. The decoder waits
-- for a byte at least at the start, and a block is read in place only where it fits.
pub reads-parse :
    (in_place : Decoder → Bytes → Bool)
    (allowed : (d : Decoder) (xs : Bytes) → in_place d xs ≡ true → length xs ≤ d.to_read)
    (blocks : List Bytes) (d : Decoder)
    → 0 < d.to_read
    → reads in_place blocks d ≡ parse (concat blocks) d
unfolding reads
reads-parse in_place allowed [] d k = unfold parse in refl
reads-parse in_place allowed (c ∷ cs) d k =
    ap (λ i. then_read i (reads in_place cs))
      (in_event-parse_upto in_place allowed (length c) d c (omega arith) k)
    ∙ then_read-cong (parse c d) (reads in_place cs) (parse (concat cs)) (parse-Waits c d k)
        (reads-parse in_place allowed cs)
    ∙ sym (parse-append c (concat cs) d)
