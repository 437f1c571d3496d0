-- ===== src/Protocol/Header.antt =====
-- The frame headers: `message_ready` of src/protocol/v2_encoder.cpp and of
-- src/protocol/v3_1_encoder.cpp, as the bytes that it writes to `m_tmp_buf`.
use serverlink.Prelude.{ℕ, ◌+◌, ◌%◌, Bool, ◌||◌, [], ◌∷◌, ◌++◌, Bytes, ltb, if◌then◌else◌, length}
use serverlink.Wire.{put_uint64}
use serverlink.Msg.{Msg, is_more, is_command, is_subscribe, is_cancel}

-- The bits more_flag 1, large_flag 2 and command_flag 4, each set at most once from zero.
abbrev pub flags_byte : Bool → Bool → Bool → ℕ
flags_byte more large command =
    (if more then 1 else 0) + (if large then 2 else 0) + (if command then 4 else 0)

-- One byte for a size up to UCHAR_MAX, else eight bytes.
unfoldable pub size_bytes : ℕ → Bytes
size_bytes size = if ltb 255 size then put_uint64 size else size % 256 ∷ []

-- The byte that marks a subscription or its cancellation before ZMTP 3.1.
unfoldable pub v2_mark : Msg → Bytes
unfolding is_subscribe is_cancel
v2_mark m = if is_subscribe m then 1 ∷ [] else if is_cancel m then 0 ∷ [] else []

unfoldable pub v2_flags : Msg → ℕ
unfolding is_more is_command
v2_flags m = flags_byte (is_more m) (ltb 255 (length m.body)) (is_command m)

unfoldable pub v2_header : Msg → Bytes
unfolding v2_flags is_subscribe is_cancel size_bytes v2_mark
v2_header m =
    let size = length m.body in
    let size' = if is_subscribe m || is_cancel m then size + 1 else size in
    v2_flags m ∷ (size_bytes size' ++ v2_mark m)

-- "\x9SUBSCRIBE" and "\x6CANCEL".
abbrev pub sub_cmd_name : Bytes
sub_cmd_name = 9 ∷ 83 ∷ 85 ∷ 66 ∷ 83 ∷ 67 ∷ 82 ∷ 73 ∷ 66 ∷ 69 ∷ []

abbrev pub cancel_cmd_name : Bytes
cancel_cmd_name = 6 ∷ 67 ∷ 65 ∷ 78 ∷ 67 ∷ 69 ∷ 76 ∷ []

unfoldable pub v3_1_mark : Msg → Bytes
unfolding is_subscribe is_cancel
v3_1_mark m = if is_subscribe m then sub_cmd_name else if is_cancel m then cancel_cmd_name else []

unfoldable pub v3_1_size : Msg → ℕ
unfolding is_subscribe is_cancel
v3_1_size m =
    let size = length m.body in
    if is_subscribe m then size + 10 else if is_cancel m then size + 7 else size

unfoldable pub v3_1_header : Msg → Bytes
unfolding is_more is_command is_subscribe is_cancel size_bytes v3_1_mark v3_1_size
v3_1_header m =
    let size = v3_1_size m in
    flags_byte (is_more m) (ltb 255 size) (is_command m || (is_subscribe m || is_cancel m))
    ∷ (size_bytes size ++ v3_1_mark m)
