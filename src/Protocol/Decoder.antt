-- ===== src/Protocol/Decoder.antt =====
-- src/protocol/decoder.hpp and src/protocol/v2_decoder.cpp: the state machine that takes a byte
-- stream apart into messages. `target` holds the bytes stored so far at the place that `m_read_pos`
-- walks over, `m_tmpbuf` or the message's body. Allocations succeed, so `size_ready` has no ENOMEM.
use serverlink.Prelude.{
  ℕ, zero, suc, ◌+◌, ◌-◌, ◌%◌, ◌^◌, min, Bool, false, Option, none, some, [], ◌∷◌, ◌++◌, Bytes, ltb,
  ◌==◌, if◌then◌else◌, length, take, drop, get_or,
}
use serverlink.Wire.{get_uint64}
use serverlink.Msg.{Msg, with_flags, has_bit}
use serverlink.Msg

pub data Step : Type 0 where
  flags_ready one_byte_size_ready eight_byte_size_ready message_ready : Step

-- 0, 1 and -1 of the source; `out_of_fuel` belongs to the model.
pub data Rc : Type 0 where
  more ready failed out_of_fuel : Rc

-- `max_msg_size` is `none` where the source has a negative number.
pub record Decoder : Type 0 where
  pub next : Step
  pub to_read : ℕ
  pub target : Bytes
  pub msg_flags : ℕ
  pub max_msg_size : Option ℕ
  pub in_progress : Msg

unfoldable pub next_step : Decoder → ℕ → Step → Decoder
next_step d n s = record d { next = s; to_read = n; target = [] }

unfoldable pub fresh : Option ℕ → Decoder
unfolding Msg.init
fresh limit = record {
  next = flags_ready;
  to_read = 1;
  target = [];
  msg_flags = 0;
  max_msg_size = limit;
  in_progress = Msg.init;
}

unfoldable pub exceeds : Option ℕ → ℕ → Bool
exceeds none size = false
exceeds (some limit) size = ltb limit size

unfoldable pub on_flags : Decoder → Rc × Decoder
unfolding next_step
on_flags d =
    let flags = get_or d.target 0 0 in
    let bits : ℕ = (if has_bit flags 1 then 1 else 0) + (if has_bit flags 4 then 2 else 0) in
    let d' = record d { msg_flags = bits } in
    (
      more,
      if has_bit flags 2
          then next_step d' 8 eight_byte_size_ready
          else next_step d' 1 one_byte_size_ready,
    )

unfoldable pub size_ready : ℕ → Decoder → Rc × Decoder
unfolding next_step exceeds with_flags
size_ready size d =
    if exceeds d.max_msg_size size
    then (failed, d)
    else if size == size % 2 ^ 64
    then (more, next_step (record d { in_progress = with_flags d.msg_flags [] }) size message_ready)
    else (failed, d)

-- The bytes of the body were stored in the message itself.
unfoldable pub on_message : Decoder → Rc × Decoder
unfolding next_step
on_message d = (
  ready,
  next_step (record d { in_progress = record (d.in_progress) { body = d.target } }) 1 flags_ready,
)

unfoldable pub dispatch : Step → Decoder → Rc × Decoder
unfolding on_flags size_ready on_message
dispatch flags_ready d = on_flags d
dispatch one_byte_size_ready d = size_ready (get_or d.target 0 0) d
dispatch eight_byte_size_ready d = size_ready (get_uint64 d.target) d
dispatch message_ready d = on_message d

-- `while (m_to_read == 0) { rc = (this->*m_next)(...); if (rc != 0) return rc; }`
unfoldable pub settle : ℕ → Decoder → Rc × Decoder
unfolding dispatch
settle zero d = (out_of_fuel, d)
settle (suc f) d = elim d.to_read [
  | suc n ↦ (more, d)
  | zero ↦ let (rc, d') = dispatch d.next d in elim rc [ more ↦ settle f d' | other ↦ (other, d') ]
]

-- Two actions at most follow one another without input: a size of zero, then an empty body.
unfoldable pub run_steps : Decoder → Rc × Decoder
unfolding settle
run_steps d = settle 4 d

unfoldable pub absorb : Decoder → Bytes → Decoder
absorb d bytes = record d { target = d.target ++ bytes; to_read = d.to_read - length bytes }

-- The branch `data == m_read_pos`: the bytes stand where they belong already.
unfoldable pub decode_in_place : Decoder → Bytes → Rc × Bytes × Decoder
unfolding absorb run_steps
decode_in_place d xs = let (rc, d') = run_steps (absorb d xs) in (rc, [], d')

-- The copying loop; the result has the bytes that are not used.
unfoldable pub decode_copy : ℕ → Decoder → Bytes → Rc × Bytes × Decoder
unfolding absorb run_steps
decode_copy f d [] = (more, [], d)
decode_copy zero d (x ∷ xs) = (out_of_fuel, x ∷ xs, d)
decode_copy (suc f) d (x ∷ xs) =
    let to_copy = min d.to_read (length (x ∷ xs)) in
    let rest = drop to_copy (x ∷ xs) in
    let (rc, d') = run_steps (absorb d (take to_copy (x ∷ xs))) in
    elim rc [ more ↦ decode_copy f d' rest | other ↦ (other, rest, d') ]

-- Every round uses a byte at least, so the length of the input is fuel enough.
unfoldable pub decode : Bool → Decoder → Bytes → Rc × Bytes × Decoder
unfolding decode_in_place decode_copy
decode in_place d xs = if in_place then decode_in_place d xs else decode_copy (length xs) d xs
