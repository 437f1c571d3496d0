-- ===== src/Protocol/Encoder.antt =====
-- src/protocol/encoder.hpp with the two actions that src/protocol/v2_encoder.cpp and
-- src/protocol/v3_1_encoder.cpp share. They differ in the header that `message_ready` writes, which
-- is the section's parameter. `write` holds the bytes from `m_write_pos` on that are still to be
-- copied, so `m_to_write` is its length.
use serverlink.Prelude.{
  ℕ, zero, suc, ◌-◌, min, Bool, true, false, Option, none, some, [], ◌∷◌, ◌++◌, Bytes, length, take,
  drop, if◌then◌else◌, ltb, leb, ◌&&◌,
}
use serverlink.Msg.{Msg}

pub data Step : Type 0 where
  message_ready size_ready : Step

pub record Encoder : Type 0 where
  pub write : Bytes
  pub next : Step
  pub new_msg_flag : Bool
  pub in_progress : Option Msg
  pub buf_size : ℕ

-- The constructors of the derived classes: no bytes, and `message_ready` comes next.
unfoldable pub fresh : ℕ → Encoder
fresh n = record {
  write = [];
  next = message_ready;
  new_msg_flag = true;
  in_progress = none;
  buf_size = n;
}

abbrev pub is_nil : Bytes → Bool
is_nil [] = true
is_nil (x ∷ xs) = false

-- The rest of a round of the loop in `encode`: the bytes are handed over where they are, or copied
-- into the buffer as far as they fit. `out` holds the bytes at `buffer[0 .. pos)`.
unfoldable pub emit :
    ℕ
    → Bool
    → Bytes
    → Encoder
    → (Bytes → Encoder → Option (Bytes × Encoder))
    → Option (Bytes × Encoder)
emit size own out e again =
    let to_copy = min (length e.write) (size - length out) in
    let copied = again (out ++ take to_copy e.write) (record e { write = drop to_copy e.write }) in
    if is_nil out && (own && leb size (length e.write))
    then some (e.write, record e { write = [] })
    else copied

module _ (header : Msg → Bytes) where
  unfoldable pub dispatch : Step → Msg → Encoder → Encoder
  dispatch message_ready m e = record e {
    write = header m;
    next = size_ready;
    new_msg_flag = false;
  }
  dispatch size_ready m e = record e { write = m.body; next = message_ready; new_msg_flag = true }

  -- `load_msg`, called on an encoder with no message in progress.
  unfoldable pub load_msg : Msg → Encoder → Encoder
  unfolding dispatch
  load_msg m e = dispatch e.next m (record e { in_progress = some m })

  unfoldable pub refill : Msg → Encoder → Encoder
  unfolding dispatch
  refill m e = if is_nil e.write then dispatch e.next m e else e

  -- The loop of `encode`; `own` says that the caller gave no buffer. `none` means that the fuel
  -- ran out.
  unfoldable pub encode_loop : ℕ → ℕ → Bool → Bytes → Msg → Encoder → Option (Bytes × Encoder)
  unfolding refill emit
  encode_loop zero size own out m e = none
  encode_loop (suc f) size own out m e = elim (ltb (length out) size) [
    | false ↦ some (out, e)
    | true ↦ elim (is_nil e.write && e.new_msg_flag) [
      | true ↦ some (out, record e { in_progress = none })
      | false ↦ emit size own out (refill m e) (λ o e'. encode_loop f size own o m e')
    ]
  ]

  -- `supplied` is `none` where the caller passes a null buffer, else it has the buffer's size.
  unfoldable pub encode : Option ℕ → Encoder → Option (Bytes × Encoder)
  encode supplied e = elim e.in_progress [
    | none ↦ some ([], e)
    | some m ↦ elim supplied [
      | none ↦ encode_loop 4 e.buf_size true [] m e
      | some size ↦ encode_loop 4 size false [] m e
    ]
  ]
