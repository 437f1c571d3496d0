-- ===== src/Protocol/Batches.antt =====
-- The loop of `encode` in src/protocol/encoder.hpp hands out the bytes of a message once and in order.
use serverlink.Prelude.{
  ℕ, suc, ◌-◌, ◌≤◌, ◌<◌, min, ◌≡◌, refl, sym, ap, ◌∙◌, inl, inr, Bool, true, false, none, some, [],
  ◌∷◌, ◌++◌, append-nil, append_assoc, Bytes, length, length-append, take, drop, take-append-drop,
  take_all, drop_all, arith, ltb, leb, ◌&&◌, length-take, Bool-cases, lt→ltb,
}
use serverlink.Msg.{Msg}
use serverlink.Protocol.Encoder.{
  Encoder, Step, message_ready, size_ready, is_nil, encode_loop, emit, refill,
}
use serverlink.Protocol.Owed.{pending, Agree, IsValid, Pays, busy}

module _ (header : Msg → Bytes) (size : ℕ) (own : Bool) (pos : 0 < size) (m : Msg) (buf : ℕ)
    (buf_pos : 0 < buf) where
  abbrev at : Bytes → Step → Bool → Encoder
  at = busy m buf

  at-IsValid : (w : Bytes) (s : Step) (b : Bool) → Agree s b → IsValid (at w s b)
  at-IsValid w s b a = record { agree = a; clear = λ e. cc; roomy = buf_pos }

  loop_full :
      (f : ℕ) (out : Bytes) (e : Encoder)
      → length out ≡ size
      → encode_loop header (suc f) size own out m e ≡ some (out, e)
  unfolding encode_loop
  loop_full f out e h = ground arith

  loop_done :
      (f : ℕ) (out : Bytes) (s : Step)
      → length out < size
      → encode_loop header (suc f) size own out m (at [] s true)
        ≡ some (out, record (at [] s true) { in_progress = none })
  unfolding encode_loop
  loop_done f out s h = ground arith

  loop_emit :
      (f : ℕ) (out : Bytes) (e e' : Encoder)
      → length out < size
      → (is_nil e.write && e.new_msg_flag) ≡ false
      → refill header m e ≡ e'
      → encode_loop header (suc f) size own out m e
        ≡ emit size own out e' (λ o e''. encode_loop header f size own o m e'')
  unfolding encode_loop
  loop_emit f out e e' h k r =
      rw (encode_loop, lt→ltb _ _ h, k)
        (ap (λ x. emit size own out x (λ o e''. encode_loop header f size own o m e'')) r)

  -- A buffer that is full ends the call.
  full-Pays :
      (f : ℕ) (out total : Bytes) (w : Bytes) (s : Step) (b : Bool)
      → length out ≡ size
      → Agree s b
      → out ++ (w ++ pending s m) ≡ total
      → Pays size own total (encode_loop header (suc f) size own out m (at w s b))
  full-Pays f out total w s b h a t =
      rw (loop_full f out (at w s b) h)
        (t, at-IsValid w s b a, inr (omega arith), inl (omega arith))

  whole-Pays :
      (out w total : Bytes) (s : Step) (b : Bool)
      → Agree s b
      → out ++ (w ++ pending s m) ≡ total
      → (is_nil out && (own && leb size (length w))) ≡ true
      → Pays size own total (some (w, at [] s b))
  whole-Pays [] w total s b a t h = (t, at-IsValid [] s b a, inr (ground arith), inr (ground arith))
  whole-Pays (x ∷ out) w total s b a t h = cc

  copy-Pays :
      (f : ℕ) (out w total : Bytes) (s : Step) (b : Bool)
      → length out < size
      → Agree s b
      → out ++ (w ++ pending s m) ≡ total
      → (length (out ++ w) ≤ size
          → Pays size own total (encode_loop header (suc f) size own (out ++ w) m (at [] s b)))
      → (n : ℕ) → n ≡ min (length w) (size - length out)
      → Pays size own total
          (encode_loop header (suc f) size own (out ++ take n w) m (at (drop n w) s b))
  copy-Pays f out w total s b h a t later n e = elim (Bool-cases (leb (length w) n)) [
    | inl fits ↦
        rw (take_all n w (ground arith), drop_all n w (ground arith))
          (later (ground (arith, length-append out w)))
    | inr over ↦
        full-Pays f (out ++ take n w) total (drop n w) s b
          (ground (arith, length-append out (take n w), length-take n w)) a
          (simp append_assoc (
            ap (λ l. out ++ l)
              (sym (append_assoc (take n w) _ _)
                ∙ ap (λ l. l ++ pending s m) (take-append-drop n w))
            ∙ t))
  ]

  -- A round that writes `w`, when the rounds after it pay for the rest.
  emit-Pays :
      (f : ℕ) (out w total : Bytes) (s : Step) (b : Bool)
      → length out < size
      → Agree s b
      → out ++ (w ++ pending s m) ≡ total
      → (length (out ++ w) ≤ size
          → Pays size own total (encode_loop header (suc f) size own (out ++ w) m (at [] s b)))
      → Pays size own total
          (emit size own out (at w s b) (λ o e'. encode_loop header (suc f) size own o m e'))
  unfolding emit
  emit-Pays f out w total s b h a t later =
      elim (Bool-cases (is_nil out && (own && leb size (length w)))) [
        | inl whole ↦ rw whole (whole-Pays out w total s b a t whole)
        | inr part ↦ rw (emit, part) (copy-Pays f out w total s b h a t later _ refl)
      ]

  -- The bytes of the body are written, or there are none to write.
  last-Pays :
      (f : ℕ) (out total : Bytes)
      → length out ≤ size
      → out ≡ total
      → Pays size own total (encode_loop header (suc f) size own out m (at [] message_ready true))
  last-Pays f out total h t = elim (Bool-cases (ltb (length out) size)) [
    | inl room ↦ rw (loop_done f out message_ready (ground arith)) (
      append-nil out ∙ t,
      record { agree = refl; clear = λ e. (refl, refl); roomy = buf_pos },
      inl refl,
      inl h,
    )
    | inr full ↦
        full-Pays f out total [] message_ready true (ground arith) refl (append-nil out ∙ t)
  ]

  -- Bytes of the body that a full buffer left over.
  tail-Pays :
      (f : ℕ) (x : ℕ) (w : Bytes)
      → Pays size own
          (x ∷ w)
          (encode_loop header (suc (suc f)) size own [] m (at (x ∷ w) message_ready true))
  tail-Pays f x w =
      rw
        (loop_emit (suc f) [] (at (x ∷ w) message_ready true) (at (x ∷ w) message_ready true) pos
          refl (unfold refill in refl))
        (emit-Pays f [] (x ∷ w) (x ∷ w) message_ready true pos refl (append-nil (x ∷ w))
          (λ h. last-Pays f (x ∷ w) (x ∷ w) h refl))

  -- The header is written.
  body-Pays :
      (f : ℕ) (out total : Bytes)
      → length out ≤ size
      → out ++ m.body ≡ total
      → Pays size own total
          (encode_loop header (suc (suc f)) size own out m (at [] size_ready false))
  body-Pays f out total h t = elim (Bool-cases (ltb (length out) size)) [
    | inl room ↦
        rw
          (loop_emit (suc f) out (at [] size_ready false) (at m.body message_ready true)
            (ground arith) refl (unfold refill in refl))
          (emit-Pays f out m.body total message_ready true (ground arith) refl (rw append-nil t)
            (λ k. last-Pays f (out ++ m.body) total k t))
    | inr full ↦ full-Pays (suc f) out total [] size_ready false (ground arith) refl t
  ]

  header-Pays :
      (f : ℕ) (x : ℕ) (w : Bytes)
      → Pays size own
          (x ∷ w ++ m.body)
          (encode_loop header (suc (suc (suc f))) size own [] m (at (x ∷ w) size_ready false))
  header-Pays f x w =
      rw
        (loop_emit (suc (suc f)) [] (at (x ∷ w) size_ready false) (at (x ∷ w) size_ready false) pos
          refl (unfold refill in refl))
        (emit-Pays (suc f) [] (x ∷ w) (x ∷ w ++ m.body) size_ready false pos refl refl
          (λ h. body-Pays f (x ∷ w) (x ∷ w ++ m.body) h refl))

  pub loop-Pays :
      (w : Bytes) (s : Step) (b : Bool)
      → Agree s b
      → Pays size own (w ++ pending s m) (encode_loop header 4 size own [] m (at w s b))
  loop-Pays [] message_ready b a = rw a (last-Pays 3 [] [] (omega arith) refl)
  loop-Pays [] size_ready b a = rw a (body-Pays 2 [] m.body (omega arith) refl)
  loop-Pays (x ∷ w) message_ready b a = rw (a, append-nil) (tail-Pays 2 x w)
  loop-Pays (x ∷ w) size_ready b a = rw a (header-Pays 1 x w)
