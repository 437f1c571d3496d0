-- ===== src/Protocol/Sending.antt =====
-- A message sent in a row of calls of `encode`.
use serverlink.Prelude.{
  ℕ, ◌+◌, ◌<◌, ◌≡◌, refl, sym, ap, ◌∙◌, ◌⊎◌, inl, inr, Option, none, some, List, [], ◌∷◌, ◌++◌,
  append-nil, append_assoc, Bytes, length, length-append, arith,
}
use serverlink.Msg.{Msg}
use serverlink.Protocol.Encoder.{
  Encoder, Step, message_ready, size_ready, encode, load_msg, dispatch,
}
use serverlink.Protocol.Owed.{IsValid, left, Pays}
use serverlink.Protocol.Calls.{room, is_own, encode-Pays}

-- The output loop calls `encode` again and again, each time with some buffer.
unfoldable pub encode_all : (Msg → Bytes) → List (Option ℕ) → Encoder → Option (Bytes × Encoder)
encode_all header [] e = some ([], e)
encode_all header (c ∷ cs) e = elim (encode header c e) [
  | none ↦ none
  | some (out, e') ↦ elim (encode_all header cs e') [
    | none ↦ none
    | some (out', e'') ↦ some (out ++ out', e'')
  ]
]

-- No call has an empty buffer.
abbrev pub Roomy : List (Option ℕ) → Type 0
Roomy [] = Unit
Roomy (none ∷ cs) = Roomy cs
Roomy (some size ∷ cs) = (0 < size) × Roomy cs

-- What a row of calls gives: the bytes that were left, in order, and the end of the message if
-- the row is longer than they are.
abbrev pub Writes : List (Option ℕ) → Encoder → Option (Bytes × Encoder) → Type 0
Writes cs e none = ⊥
Writes cs e (some (out, e')) =
    (out ++ left e' ≡ left e)
    × IsValid e'
    × ((e.in_progress ≡ none) ⊎ (length (left e) < length cs) → e'.in_progress ≡ none)

left-idle : (e : Encoder) → e.in_progress ≡ none → left e ≡ []
left-idle e h = rw h

abbrev join : Bytes → Option (Bytes × Encoder) → Option (Bytes × Encoder)
join out none = none
join out (some (out', e)) = some (out ++ out', e)

join-Writes :
    (c : Option ℕ) (cs : List (Option ℕ)) (e e' : Encoder) (out : Bytes)
    (r : Option (Bytes × Encoder))
    → out ++ left e' ≡ left e
    → (e'.in_progress ≡ none) ⊎ (0 < length out)
    → Writes cs e' r
    → Writes (c ∷ cs) e (join out r)
join-Writes c cs e e' out none t p w = w
join-Writes c cs e e' out (some (out', e'')) t p (u, v, done) =
    (append_assoc out out' (left e'') ∙ ap (λ l. out ++ l) u ∙ t, v, λ h. done (ends h p))
  where
    size : length out + length (left e') ≡ length (left e)
    size = sym (length-append out (left e')) ∙ ap length t

    ends :
        (e.in_progress ≡ none) ⊎ (length (left e) < length (c ∷ cs))
        → (e'.in_progress ≡ none) ⊎ (0 < length out)
        → (e'.in_progress ≡ none) ⊎ (length (left e') < length cs)
    ends h (inl idle) = inl idle
    ends (inl idle) (inr some_bytes) = absurd (omega (arith, size, ap length (left-idle e idle)))
    ends (inr long) (inr some_bytes) = inr (omega (arith, size))

encode_all-cons :
    (header : Msg → Bytes) (c : Option ℕ) (cs : List (Option ℕ)) (e e' : Encoder) (out : Bytes)
    → encode header c e ≡ some (out, e')
    → encode_all header (c ∷ cs) e ≡ join out (encode_all header cs e')
unfolding encode_all
encode_all-cons header c cs e e' out h = rw (encode_all, h) (ground arith)

Writes-cons :
    (header : Msg → Bytes) (c : Option ℕ) (cs : List (Option ℕ)) (e : Encoder)
    (r : Option (Bytes × Encoder))
    → encode header c e ≡ r
    → Pays (room c e) (is_own c) (left e) r
    → ((e' : Encoder) → IsValid e' → Writes cs e' (encode_all header cs e'))
    → Writes (c ∷ cs) e (encode_all header (c ∷ cs) e)
Writes-cons header c cs e none h p k = absurd p
Writes-cons header c cs e (some (out, e')) h (t, v, progress, fits) k =
    rw (encode_all-cons header c cs e e' out h)
      (join-Writes c cs e e' out (encode_all header cs e') t progress (k e' v))

Roomy-head :
    (c : Option ℕ) (cs : List (Option ℕ)) (e : Encoder) → Roomy (c ∷ cs) → IsValid e → 0 < room c e
Roomy-head none cs e h v = v.roomy
Roomy-head (some size) cs e h v = h.0

Roomy-tail : (c : Option ℕ) (cs : List (Option ℕ)) → Roomy (c ∷ cs) → Roomy cs
Roomy-tail none cs h = h
Roomy-tail (some size) cs h = h.1

encode_all-Writes :
    (header : Msg → Bytes) (cs : List (Option ℕ)) (e : Encoder)
    → Roomy cs
    → IsValid e
    → Writes cs e (encode_all header cs e)
encode_all-Writes header [] e h v = unfold encode_all in (refl, v, λ q. idle q)
  where
    idle : (e.in_progress ≡ none) ⊎ (length (left e) < 0) → e.in_progress ≡ none
    idle (inl i) = i
    idle (inr k) = absurd (omega arith)
encode_all-Writes header (c ∷ cs) e h v =
    Writes-cons header c cs e (encode header c e) refl
      (encode-Pays header c e v (Roomy-head c cs e h v))
      (λ e' v'. encode_all-Writes header cs e' (Roomy-tail c cs h) v')

-- A row of calls on the frame of a loaded message.
abbrev pub Sends : ℕ → Bytes → Option (Bytes × Encoder) → Type 0
Sends n frame none = ⊥
Sends n frame (some (out, e)) =
    (out ++ left e ≡ frame)
    × IsValid e
    × (length frame < n → (e.in_progress ≡ none) × (out ≡ frame))

Writes-Sends :
    (cs : List (Option ℕ)) (e : Encoder) (frame : Bytes) (r : Option (Bytes × Encoder))
    → left e ≡ frame
    → Writes cs e r
    → Sends (length cs) frame r
Writes-Sends cs e frame none q w = w
Writes-Sends cs e frame (some (out, e')) q (t, v, done) =
    (t ∙ q, v, λ h. ends (done (inr (omega (arith, ap length q)))))
  where
    ends : e'.in_progress ≡ none → (e'.in_progress ≡ none) × (out ≡ frame)
    ends i = (i, sym (append-nil out) ∙ ap (λ l. out ++ l) (sym (left-idle e' i)) ∙ (t ∙ q))

load_msg-left :
    (header : Msg → Bytes) (m : Msg) (e : Encoder)
    → e.next ≡ message_ready
    → left (load_msg header m e) ≡ header m ++ m.body
unfolding load_msg
load_msg-left header m e h = rw h

load_msg-IsValid :
    (header : Msg → Bytes) (m : Msg) (e : Encoder) → IsValid e → IsValid (load_msg header m e)
unfolding load_msg
load_msg-IsValid header m e v = dispatch-IsValid e.next
  where
    dispatch-IsValid :
        (s : Step) → IsValid (dispatch header s m (record e { in_progress = some m }))
    dispatch-IsValid message_ready = record { agree = refl; clear = λ q. cc; roomy = v.roomy }
    dispatch-IsValid size_ready = record { agree = refl; clear = λ q. cc; roomy = v.roomy }

load-encode_all-Sends :
    (header : Msg → Bytes) (m : Msg) (cs : List (Option ℕ)) (e : Encoder)
    → Roomy cs
    → IsValid e
    → e.in_progress ≡ none
    → Sends (length cs) (header m ++ m.body) (encode_all header cs (load_msg header m e))
load-encode_all-Sends header m cs e h v i =
    Writes-Sends cs (load_msg header m e) (header m ++ m.body) _
      (load_msg-left header m e (v.clear i).1)
      (encode_all-Writes header cs (load_msg header m e) h (load_msg-IsValid header m e v))

Sends-enough :
    (n : ℕ) (frame : Bytes) (r : Option (Bytes × Encoder))
    → length frame < n
    → Sends n frame r
    → (e : Encoder) × (r ≡ some (frame, e)) × (e.in_progress ≡ none) × IsValid e
Sends-enough n frame none k s = absurd s
Sends-enough n frame (some (out, e)) k (t, v, done) =
    (e, ap (λ o. some (o, e)) (done k).1, (done k).0, v)

-- A message that is loaded into an idle encoder comes out as its header and its body, in order and
-- with nothing between, whatever buffers that are not empty the calls of `encode` are given, if there
-- are more calls than the frame has bytes; then the encoder is idle again, and fit for the next.
pub load-encode_all :
    (header : Msg → Bytes) (m : Msg) (cs : List (Option ℕ)) (e : Encoder)
    → Roomy cs
    → IsValid e
    → e.in_progress ≡ none
    → length (header m ++ m.body) < length cs
    → (e' : Encoder) × (encode_all header cs (load_msg header m e) ≡ some (header m ++ m.body, e'))
      × (e'.in_progress ≡ none)
      × IsValid e'
load-encode_all header m cs e h v i k =
    Sends-enough (length cs) (header m ++ m.body) _ k (load-encode_all-Sends header m cs e h v i)
