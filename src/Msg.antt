-- ===== src/Msg.antt =====
-- src/msg/msg.hpp, src/msg/msg.cpp: a message as the rest of the program sees it, that is its flags
-- byte, its bytes and whether it is a delimiter. How the bytes are stored (inside the object, on the
-- heap, shared or in a decoder's buffer) and the reference counts are not modelled.
use serverlink.Prelude.{ℕ, ◌/◌, ◌%◌, ◌==◌, Bool, true, false, [], Bytes}

pub record Msg : Type 0 where
  pub delimiter : Bool
  pub flags : ℕ
  pub body : Bytes

-- A test of one bit of a flags byte; the bit is given by its value.
abbrev pub has_bit : ℕ → ℕ → Bool
has_bit flags bit = flags / bit % 2 == 1

unfoldable pub is_more : Msg → Bool
is_more m = has_bit m.flags 1

unfoldable pub is_command : Msg → Bool
is_command m = has_bit m.flags 2

-- The mask 0x1c keeps bits 2 to 4, which hold 3 for `subscribe` and 4 for `cancel`.
unfoldable pub is_subscribe : Msg → Bool
is_subscribe m = m.flags / 4 % 8 == 3

unfoldable pub is_cancel : Msg → Bool
is_cancel m = m.flags / 4 % 8 == 4

unfoldable pub is_credential : Msg → Bool
is_credential m = has_bit m.flags 32

unfoldable pub is_routing_id : Msg → Bool
is_routing_id m = has_bit m.flags 64

unfoldable pub is_delimiter : Msg → Bool
is_delimiter m = m.delimiter

-- `init`: an empty message.
unfoldable pub init : Msg
init = record { delimiter = false; flags = 0; body = [] }

unfoldable pub init_delimiter : Msg
init_delimiter = record { delimiter = true; flags = 0; body = [] }

-- `init_size` or `init_buffer`, then `set_flags` on the fresh message.
unfoldable pub with_flags : ℕ → Bytes → Msg
with_flags flags body = record { delimiter = false; flags = flags; body = body }
