-- ===== src/Protocol/Owed.antt =====
-- What an encoder (src/protocol/encoder.hpp) still owes of a message, and what a call of `encode` has
-- to pay of it.
use serverlink.Prelude.{
  ℕ, ◌≤◌, ◌<◌, ◌≡◌, ◌⊎◌, Bool, true, false, Option, none, some, [], ◌++◌, Bytes, length,
}
use serverlink.Msg.{Msg}
use serverlink.Protocol.Encoder.{Encoder, Step, message_ready, size_ready}

-- The body is still to come while `size_ready` is the next action.
abbrev pub pending : Step → Msg → Bytes
pending message_ready m = []
pending size_ready m = m.body

abbrev pub left_in : Option Msg → Encoder → Bytes
left_in none e = []
left_in (some m) e = e.write ++ pending e.next m

-- The bytes of the message in progress that are not yet returned.
abbrev pub left : Encoder → Bytes
left e = left_in e.in_progress e

abbrev pub Agree : Step → Bool → Type 0
Agree message_ready b = b ≡ true
Agree size_ready b = b ≡ false

-- The flag is raised exactly while nothing follows the bytes that are being written, and the
-- encoder's own buffer is not empty.
pub record IsValid (e : Encoder) : Type 0 where
  pub agree : Agree e.next e.new_msg_flag
  pub clear : e.in_progress ≡ none → (e.write ≡ []) × (e.next ≡ message_ready)
  pub roomy : 0 < e.buf_size

-- What a call owes: the bytes returned and those left make up what was left before. It hands back
-- a byte at least, or it is done; and it overfills no buffer but one that it replaces by its own.
abbrev pub Pays : ℕ → Bool → Bytes → Option (Bytes × Encoder) → Type 0
Pays size own total none = ⊥
Pays size own total (some (out, e)) =
    (out ++ left e ≡ total)
    × IsValid e
    × ((e.in_progress ≡ none) ⊎ (0 < length out))
    × ((length out ≤ size) ⊎ (own ≡ true))

abbrev pub busy : Msg → ℕ → Bytes → Step → Bool → Encoder
busy m buf w s b = record {
  write = w;
  next = s;
  new_msg_flag = b;
  in_progress = some m;
  buf_size = buf;
}
