-- ===== src/Protocol/Chunks.antt =====
-- What the decoder makes of its input does not depend on how the input is cut: `decode`, with its
-- block copies and its in-place branch, against a reader that takes one byte at a time.
use serverlink.Prelude.{
  ℕ, zero, suc, ◌-◌, ◌≤◌, ◌<◌, min, ◌≡◌, refl, sym, ap, ◌∙◌, ◌⊎◌, inl, inr, Bool, true, false, [],
  ◌∷◌, ◌++◌, append-nil, append_assoc, Bytes, length, take, drop, arith, take-append-drop,
  length-append, length-take, length-drop,
}
use serverlink.Protocol.Decoder.{
  Decoder, Step, flags_ready, one_byte_size_ready, eight_byte_size_ready, message_ready, Rc, more,
  ready, failed, out_of_fuel, dispatch, on_flags, on_message, size_ready, settle, run_steps, absorb,
  decode_in_place, decode_copy, decode,
}

-- The byte that is next is stored, and whatever is complete is acted upon.
pub scan : Decoder → Bytes → Rc × Bytes × Decoder
scan d [] = (more, [], d)
scan d (x ∷ xs) =
    let (rc, d') = run_steps (absorb d (x ∷ [])) in
    elim rc [ more ↦ scan d' xs | other ↦ (other, xs, d') ]

-- `decode` stopped because it had to: it waits for input, or it has a message, or it gave up.
abbrev pub Settled : Rc × Decoder → Type 0
Settled (more, d) = 0 < d.to_read
Settled (ready, d) = 0 < d.to_read
Settled (failed, d) = Unit
Settled (out_of_fuel, d) = ⊥

pub settle-pending : (f : ℕ) (d : Decoder) → 0 < d.to_read → settle (suc f) d ≡ (more, d)
unfolding settle
settle-pending f d h = ground arith

-- What an action leaves: input to wait for, or a body of which nothing is missing.
abbrev Left : Rc × Decoder → Type 0
Left (more, d) = (0 < d.to_read) ⊎ ((d.to_read ≡ 0) × (d.next ≡ message_ready))
Left (ready, d) = 0 < d.to_read
Left (failed, d) = Unit
Left (out_of_fuel, d) = ⊥

size_ready-Left : (size : ℕ) (d : Decoder) → Left (size_ready size d)
unfolding size_ready
size_ready-Left size d = ground arith

dispatch-Left : (s : Step) (d : Decoder) → Left (dispatch s d)
unfolding dispatch on_flags on_message
dispatch-Left flags_ready d = ground arith
dispatch-Left one_byte_size_ready d = size_ready-Left _ d
dispatch-Left eight_byte_size_ready d = size_ready-Left _ d
dispatch-Left message_ready d = ground arith

settle_last : (f : ℕ) (d : Decoder) → d.next ≡ message_ready → Settled (settle (suc f) d)
unfolding settle on_message
settle_last f d e = ground arith

abbrev pub go_on : ℕ → Rc × Decoder → Rc × Decoder
go_on f (more, d) = settle f d
go_on f (rc, d) = (rc, d)

pub settle-go_on :
    (f : ℕ) (d : Decoder) → d.to_read ≡ 0 → settle (suc f) d ≡ go_on f (dispatch d.next d)
unfolding settle
settle-go_on f d e = ground arith

go_on-Settled : (f : ℕ) (r : Rc × Decoder) → Left r → Settled (go_on (suc f) r)
go_on-Settled f (more, d) (inl h) = rw (settle-pending f d h) h
go_on-Settled f (more, d) (inr (z, e)) = settle_last f d e
go_on-Settled f (ready, d) h = h
go_on-Settled f (failed, d) h = tt
go_on-Settled f (out_of_fuel, d) h = h

pub run_steps-Settled : (d : Decoder) → Settled (run_steps d)
unfolding run_steps
run_steps-Settled d = split d.to_read refl
  where
    split : (n : ℕ) → d.to_read ≡ n → Settled (settle 4 d)
    split zero e = rw (settle-go_on 3 d e) (go_on-Settled 2 _ (dispatch-Left d.next d))
    split (suc n) e = let h : 0 < d.to_read = omega arith in rw (settle-pending 3 d h) h

pub run_steps-pending : (d : Decoder) → 0 < d.to_read → run_steps d ≡ (more, d)
unfolding run_steps
run_steps-pending d h = settle-pending 3 d h

-- How `scan` goes on after the actions that a byte set off.
abbrev pub resume : Rc × Decoder → Bytes → Rc × Bytes × Decoder
resume (more, d) xs = scan d xs
resume (rc, d) xs = (rc, xs, d)

pub scan-cons :
    (d : Decoder) (x : ℕ) (xs : Bytes) → scan d (x ∷ xs) ≡ resume (run_steps (absorb d (x ∷ []))) xs
unfolding scan
scan-cons d x xs = ground arith

absorb-absorb : (d : Decoder) (xs ys : Bytes) → absorb (absorb d xs) ys ≡ absorb d (xs ++ ys)
unfolding absorb
absorb-absorb d xs ys = ground (arith, append_assoc d.target xs ys, length-append xs ys)

absorb-nil : (d : Decoder) → absorb d [] ≡ d
unfolding absorb
absorb-nil d = ground (arith, append-nil d.target)

to_read-absorb : (d : Decoder) (xs : Bytes) → (absorb d xs).to_read ≡ d.to_read - length xs
unfolding absorb
to_read-absorb d xs = refl

-- A block that leaves something to read, or fills up what was missing, byte by byte.
pub scan-block :
    (y : ℕ) (ys : Bytes) (d : Decoder) (zs : Bytes)
    → length (y ∷ ys) ≤ d.to_read
    → scan d (y ∷ ys ++ zs) ≡ resume (run_steps (absorb d (y ∷ ys))) zs
scan-block y [] d zs h = scan-cons d y zs
scan-block y (y' ∷ ys) d zs h =
    scan-cons d y (y' ∷ ys ++ zs)
    ∙ ap (λ r. resume r (y' ∷ ys ++ zs))
        (run_steps-pending (absorb d (y ∷ [])) (omega (arith, to_read-absorb d (y ∷ []))))
    ∙ scan-block y' ys (absorb d (y ∷ [])) zs (omega (arith, to_read-absorb d (y ∷ [])))
    ∙ ap (λ e. resume (run_steps e) zs) (absorb-absorb d (y ∷ []) (y' ∷ ys))

abbrev resume_copy : ℕ → Rc × Decoder → Bytes → Rc × Bytes × Decoder
resume_copy f (more, d) xs = decode_copy f d xs
resume_copy f (rc, d) xs = (rc, xs, d)

decode_copy-cons :
    (f : ℕ) (d : Decoder) (x : ℕ) (xs : Bytes)
    → decode_copy (suc f) d (x ∷ xs)
      ≡ resume_copy f
          (run_steps (absorb d (take (min d.to_read (length (x ∷ xs))) (x ∷ xs))))
          (drop (min d.to_read (length (x ∷ xs))) (x ∷ xs))
unfolding decode_copy
decode_copy-cons f d x xs = ground arith

-- The two ways to go on agree, if they do on the input that is left.
resume_copy-resume :
    (f : ℕ) (r : Rc × Decoder) (xs : Bytes)
    → Settled r
    → ((d : Decoder) → 0 < d.to_read → decode_copy f d xs ≡ scan d xs)
    → resume_copy f r xs ≡ resume r xs
resume_copy-resume f (more, d) xs h k = k d h
resume_copy-resume f (ready, d) xs h k = refl
resume_copy-resume f (failed, d) xs h k = refl
resume_copy-resume f (out_of_fuel, d) xs h k = refl

scan-take :
    (n : ℕ) (d : Decoder) (x : ℕ) (xs : Bytes)
    → 0 < n
    → n ≤ d.to_read
    → scan d (x ∷ xs) ≡ resume (run_steps (absorb d (take n (x ∷ xs)))) (drop n (x ∷ xs))
scan-take zero d x xs h k = absurd (omega arith)
scan-take (suc n) d x xs h k =
    ap (λ l. scan d (x ∷ l)) (sym (take-append-drop n xs))
    ∙ scan-block x (take n xs) d (drop n xs) (omega (arith, length-take n xs))

decode_copy-nil : (f : ℕ) (d : Decoder) → decode_copy f d [] ≡ (more, [], d)
unfolding decode_copy
decode_copy-nil zero d = refl
decode_copy-nil (suc f) d = refl

pub scan-nil : (d : Decoder) → scan d [] ≡ (more, [], d)
unfolding scan
scan-nil d = refl

decode_copy-scan :
    (f : ℕ) (d : Decoder) (xs : Bytes)
    → length xs ≤ f
    → 0 < d.to_read
    → decode_copy f d xs ≡ scan d xs
decode_copy-scan zero d [] h k = rw decode_copy-nil (sym (scan-nil d))
decode_copy-scan (suc f) d [] h k = rw decode_copy-nil (sym (scan-nil d))
decode_copy-scan zero d (x ∷ xs) h k = absurd (omega arith)
decode_copy-scan (suc f) d (x ∷ xs) h k =
    decode_copy-cons f d x xs
    ∙ resume_copy-resume f _ _ (run_steps-Settled _) (λ d' k'.
      decode_copy-scan f d' (drop (min d.to_read (length (x ∷ xs))) (x ∷ xs))
        (omega (arith, length-drop (min d.to_read (length (x ∷ xs))) (x ∷ xs))) k')
    ∙ sym (scan-take (min d.to_read (length (x ∷ xs))) d x xs (omega arith) (omega arith))

decode_in_place-pair :
    (d : Decoder) (xs : Bytes)
    → decode_in_place d xs ≡ ((run_steps (absorb d xs)).0, [], (run_steps (absorb d xs)).1)
unfolding decode_in_place
decode_in_place-pair d xs = refl

resume-nil : (r : Rc × Decoder) → (r.0, [], r.1) ≡ resume r []
resume-nil (more, d) = sym (scan-nil d)
resume-nil (ready, d) = refl
resume-nil (failed, d) = refl
resume-nil (out_of_fuel, d) = refl

decode_in_place-resume :
    (d : Decoder) (xs : Bytes) → decode_in_place d xs ≡ resume (run_steps (absorb d xs)) []
decode_in_place-resume d xs = decode_in_place-pair d xs ∙ resume-nil _

decode_in_place-scan :
    (d : Decoder) (xs : Bytes)
    → 0 < d.to_read
    → length xs ≤ d.to_read
    → decode_in_place d xs ≡ scan d xs
decode_in_place-scan d [] k h =
    decode_in_place-resume d []
    ∙ ap (λ e. resume (run_steps e) []) (absorb-nil d)
    ∙ ap (λ r. resume r []) (run_steps-pending d k)
decode_in_place-scan d (x ∷ xs) k h =
    decode_in_place-resume d (x ∷ xs)
    ∙ sym (scan-block x xs d [] h)
    ∙ ap (λ l. scan d (x ∷ l)) (append-nil xs)

-- A call of `decode` on a block of bytes, copied or in place, has the result of reading the bytes
-- one at a time: the same return code, the same bytes left unused, the same state. The block that
-- is read in place is no longer than what the decoder asked for.
pub decode-scan :
    (in_place : Bool) (d : Decoder) (xs : Bytes)
    → 0 < d.to_read
    → (in_place ≡ true → length xs ≤ d.to_read)
    → decode in_place d xs ≡ scan d xs
unfolding decode
decode-scan true d xs k h = decode_in_place-scan d xs k (h refl)
decode-scan false d xs k h = decode_copy-scan (length xs) d xs (omega arith) k
