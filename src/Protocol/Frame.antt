-- ===== src/Protocol/Frame.antt =====
-- How the decoder takes in one frame: its flags, its size and its body.
use serverlink.Prelude.{
  ℕ, ◌+◌, ◌%◌, ◌^◌, ◌≤◌, ◌<◌, ◌≡◌, refl, sym, ap, ◌∙◌, inl, inr, Bool, true, false, Option, [], ◌∷◌,
  ◌++◌, append-nil, Bytes, length, arith, if◌then◌else◌, ltb, ◌==◌, Bool-cases,
}
use native.Mathlib.Nat.{mod-eq_of_lt}
use serverlink.Wire.{put_uint64, get-put_uint64, get_uint64}
use serverlink.Msg.{Msg, has_bit, with_flags}
use serverlink.Protocol.Header.{size_bytes}
use serverlink.Protocol.Decoder.{
  Decoder, flags_ready, one_byte_size_ready, eight_byte_size_ready, message_ready, Rc, more, ready,
  absorb, run_steps, settle, exceeds, dispatch, size_ready,
}
use serverlink.Protocol.Chunks.{scan, scan-block, resume, settle-pending, settle-go_on, go_on}

-- A decoder between two frames.
abbrev pub idle : Option ℕ → ℕ → Msg → Decoder
idle limit flags m = record {
  next = flags_ready;
  to_read = 1;
  target = [];
  msg_flags = flags;
  max_msg_size = limit;
  in_progress = m;
}

-- The message flags that a frame's flags byte stands for.
abbrev pub msg_bits : ℕ → ℕ
msg_bits b = (if has_bit b 1 then 1 else 0) + (if has_bit b 4 then 2 else 0)

small : (n : ℕ) → ltb 255 n ≡ false → n < 256
small n h = ground arith

module _ (limit : Option ℕ) where
  abbrev sizing : Bool → ℕ → Msg → Decoder
  sizing large bits m = record {
    next = if large then eight_byte_size_ready else one_byte_size_ready;
    to_read = if large then 8 else 1;
    target = [];
    msg_flags = bits;
    max_msg_size = limit;
    in_progress = m;
  }

  abbrev reading : ℕ → ℕ → Decoder
  reading bits n = record {
    next = message_ready;
    to_read = n;
    target = [];
    msg_flags = bits;
    max_msg_size = limit;
    in_progress = with_flags bits [];
  }

  flags_dispatch :
      (bits b : ℕ) (m : Msg)
      → dispatch flags_ready (absorb (idle limit bits m) (b ∷ []))
        ≡ (more, sizing (has_bit b 2) (msg_bits b) m)
  unfolding dispatch absorb
  flags_dispatch bits b m = elim (Bool-cases (has_bit b 2)) [
    | inl e ↦ rw e refl
    | inr e ↦ rw e refl
  ]

  sizing-pos : (large : Bool) (bits : ℕ) (m : Msg) → 0 < (sizing large bits m).to_read
  sizing-pos true bits m = omega arith
  sizing-pos false bits m = omega arith

  step_with :
      (d : Decoder) (r : Rc × Decoder)
      → d.to_read ≡ 0
      → dispatch d.next d ≡ r
      → run_steps d ≡ go_on 3 r
  unfolding run_steps
  step_with d r z e = settle-go_on 3 d z ∙ ap (go_on 3) e

  flags_step :
      (bits b : ℕ) (m : Msg)
      → run_steps (absorb (idle limit bits m) (b ∷ []))
        ≡ (more, sizing (has_bit b 2) (msg_bits b) m)
  unfolding absorb
  flags_step bits b m =
      step_with (absorb (idle limit bits m) (b ∷ [])) _ refl (flags_dispatch bits b m)
      ∙ settle-pending 2 (sizing (has_bit b 2) (msg_bits b) m)
          (sizing-pos (has_bit b 2) (msg_bits b) m)

  size_ready-reading :
      (n bits : ℕ) (d : Decoder)
      → n < 2 ^ 64
      → exceeds limit n ≡ false
      → size_ready n (record d { msg_flags = bits; max_msg_size = limit }) ≡ (more, reading bits n)
  unfolding size_ready
  size_ready-reading n bits d h k = rw (k, whole) refl
    where
      whole : (n == n % 2 ^ 64) ≡ true
      whole = ground arith

  size_step_small :
      (bits n : ℕ) (m : Msg)
      → n < 256
      → exceeds limit n ≡ false
      → run_steps (absorb (sizing false bits m) (n ∷ [])) ≡ settle 3 (reading bits n)
  unfolding absorb dispatch
  size_step_small bits n m h k =
      step_with (absorb (sizing false bits m) (n ∷ [])) _ refl
        (size_ready-reading n bits (absorb (sizing false bits m) (n ∷ [])) (omega arith) k)

  large_dispatch :
      (bits n : ℕ) (m : Msg)
      → n < 2 ^ 64
      → exceeds limit n ≡ false
      → dispatch eight_byte_size_ready (absorb (sizing true bits m) (put_uint64 n))
        ≡ (more, reading bits n)
  unfolding dispatch absorb
  large_dispatch bits n m h k =
      ap (λ v. size_ready v (absorb (sizing true bits m) (put_uint64 n))) from_wire
      ∙ size_ready-reading n bits (absorb (sizing true bits m) (put_uint64 n)) h k
    where
      from_wire : get_uint64 (put_uint64 n) ≡ n
      from_wire = ap get_uint64 (sym (append-nil (put_uint64 n))) ∙ get-put_uint64 n [] h

  size_step_large :
      (bits n : ℕ) (m : Msg)
      → n < 2 ^ 64
      → exceeds limit n ≡ false
      → run_steps (absorb (sizing true bits m) (put_uint64 n)) ≡ settle 3 (reading bits n)
  unfolding absorb put_uint64
  size_step_large bits n m h k =
      step_with (absorb (sizing true bits m) (put_uint64 n)) _ refl (large_dispatch bits n m h k)

  body_dispatch :
      (bits : ℕ) (content : Bytes) (n : ℕ)
      → dispatch message_ready (absorb (reading bits n) content)
        ≡ (ready, idle limit bits (with_flags bits content))
  unfolding dispatch absorb with_flags
  body_dispatch bits content n = refl

  body_done :
      (bits : ℕ) (content : Bytes)
      → run_steps (absorb (reading bits (length content)) content)
        ≡ (ready, idle limit bits (with_flags bits content))
  unfolding absorb
  body_done bits content =
      step_with (absorb (reading bits (length content)) content) _ (omega arith)
        (body_dispatch bits content (length content))

  empty_body :
      (bits : ℕ) → settle 3 (reading bits 0) ≡ (ready, idle limit bits (with_flags bits []))
  unfolding dispatch with_flags
  empty_body bits = settle-go_on 2 (reading bits 0) refl

  scan-body :
      (bits : ℕ) (content rest : Bytes)
      → resume (settle 3 (reading bits (length content))) (content ++ rest)
        ≡ (ready, rest, idle limit bits (with_flags bits content))
  scan-body bits [] rest = ap (λ r. resume r rest) (empty_body bits)
  scan-body bits (x ∷ xs) rest =
      ap (λ r. resume r (x ∷ xs ++ rest))
        (settle-pending 2 (reading bits (length (x ∷ xs))) (omega arith))
      ∙ scan-block x xs (reading bits (length (x ∷ xs))) rest (omega arith)
      ∙ ap (λ r. resume r rest) (body_done bits (x ∷ xs))

  scan-put :
      (n : ℕ) (d : Decoder) (zs : Bytes)
      → 8 ≤ d.to_read
      → scan d (put_uint64 n ++ zs) ≡ resume (run_steps (absorb d (put_uint64 n))) zs
  unfolding put_uint64
  scan-put n d zs h = scan-block _ _ d zs h

  -- The size field and the body.
  scan-sized :
      (large : Bool) (bits : ℕ) (m : Msg) (content rest : Bytes)
      → large ≡ ltb 255 (length content)
      → length content < 2 ^ 64
      → exceeds limit (length content) ≡ false
      → scan (sizing large bits m) (size_bytes (length content) ++ (content ++ rest))
        ≡ (ready, rest, idle limit bits (with_flags bits content))
  unfolding size_bytes
  scan-sized true bits m content rest e h k = rw (← e) (
      scan-put (length content) (sizing true bits m) (content ++ rest) (omega arith)
      ∙ ap (λ r. resume r (content ++ rest)) (size_step_large bits (length content) m h k)
      ∙ scan-body bits content rest)
  scan-sized false bits m content rest e h k =
      rw (← e, mod-eq_of_lt (small (length content) (sym e)))
        (scan-block (length content) [] (sizing false bits m) (content ++ rest) (omega arith)
          ∙ ap (λ r. resume r (content ++ rest))
              (size_step_small bits (length content) m (small (length content) (sym e)) k)
          ∙ scan-body bits content rest)

  pub scan-frame :
      (bits b : ℕ) (m : Msg) (content rest : Bytes)
      → has_bit b 2 ≡ ltb 255 (length content)
      → length content < 2 ^ 64
      → exceeds limit (length content) ≡ false
      → scan (idle limit bits m) (b ∷ (size_bytes (length content) ++ (content ++ rest)))
        ≡ (ready, rest, idle limit (msg_bits b) (with_flags (msg_bits b) content))
  scan-frame bits b m content rest e h k =
      scan-block b [] (idle limit bits m) (size_bytes (length content) ++ (content ++ rest))
        (omega arith)
      ∙ ap (λ r. resume r (size_bytes (length content) ++ (content ++ rest))) (flags_step bits b m)
      ∙ scan-sized (has_bit b 2) (msg_bits b) m content rest e h k
