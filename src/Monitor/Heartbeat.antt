-- ===== src/Monitor/Heartbeat.antt =====
-- src/monitor/heartbeat.cpp: messages that carry a time, to measure how long an answer takes. A time is the
-- bit pattern of an `int64_t`; a message that cannot be allocated is not covered.
use serverlink.Prelude.{
  ℕ, ◌+◌, ◌*◌, ◌/◌, ◌%◌, ◌^◌, ◌<◌, ◌≡◌, refl, ap, ◌∙◌, arith, Bool, true, false, ◌||◌, ltb,
  if◌then◌else◌, [], ◌∷◌, ◌++◌, Bytes, length, take, drop, bytes_beq, get_or,
}
use serverlink.Msg.{Msg, with_flags}

abbrev pub ping_prefix : Bytes
ping_prefix = 0 ∷ 83 ∷ 76 ∷ 75 ∷ 80 ∷ []

abbrev pub pong_prefix : Bytes
pong_prefix = 0 ∷ 83 ∷ 76 ∷ 75 ∷ 79 ∷ []

unfoldable pub encode_timestamp : ℕ → Bytes
encode_timestamp t =
    t / 2 ^ 56 % 256
    ∷ t / 2 ^ 48 % 256
    ∷ t / 2 ^ 40 % 256
    ∷ t / 2 ^ 32 % 256
    ∷ t / 2 ^ 24 % 256
    ∷ t / 2 ^ 16 % 256
    ∷ t / 2 ^ 8 % 256
    ∷ t % 256
    ∷ []

unfoldable pub decode_timestamp : Bytes → ℕ
decode_timestamp b =
    get_or b 0 0 * 2 ^ 56
    + get_or b 1 0 * 2 ^ 48
    + get_or b 2 0 * 2 ^ 40
    + get_or b 3 0 * 2 ^ 32
    + get_or b 4 0 * 2 ^ 24
    + get_or b 5 0 * 2 ^ 16
    + get_or b 6 0 * 2 ^ 8
    + get_or b 7 0

unfoldable pub create_ping : ℕ → Msg
create_ping t = with_flags 0 (ping_prefix ++ encode_timestamp t)

unfoldable pub create_pong : ℕ → Msg
create_pong t = with_flags 0 (pong_prefix ++ encode_timestamp t)

unfoldable pub has_prefix : Msg → Bytes → Bool
has_prefix m prefix = if ltb (length m.body) 13 then false else bytes_beq (take 5 m.body) prefix

unfoldable pub is_ping : Msg → Bool
is_ping m = has_prefix m ping_prefix

unfoldable pub is_pong : Msg → Bool
is_pong m = has_prefix m pong_prefix

unfoldable pub is_heartbeat : Msg → Bool
is_heartbeat m = is_ping m || is_pong m

unfoldable pub extract_timestamp : Msg → ℕ
extract_timestamp m = if ltb (length m.body) 13 then 0 else decode_timestamp (drop 5 m.body)

unfoldable pub extract_ping_timestamp : Msg → ℕ
extract_ping_timestamp m = if is_ping m then extract_timestamp m else 0

unfoldable pub extract_pong_timestamp : Msg → ℕ
extract_pong_timestamp m = if is_pong m then extract_timestamp m else 0

decode-encode_timestamp : (t : ℕ) → t < 2 ^ 64 → decode_timestamp (encode_timestamp t) ≡ t
unfolding decode_timestamp encode_timestamp
decode-encode_timestamp t h = omega arith

-- A ping for a time that fits in 64 bits is a heartbeat and no pong, and gives this time; the pong that
-- answers it is no ping and gives the time of the ping back; either message gives 0 as the other.
pub extract_ping-create_ping :
    (t : ℕ)
    → t < 2 ^ 64
    → (is_heartbeat (create_ping t) ≡ true)
      × (extract_ping_timestamp (create_ping t) ≡ t)
      × (extract_pong_timestamp (create_ping t) ≡ 0)
      × (extract_pong_timestamp (create_pong (extract_ping_timestamp (create_ping t))) ≡ t)
      × (extract_ping_timestamp (create_pong t) ≡ 0)
unfolding create_ping create_pong is_heartbeat is_ping is_pong has_prefix extract_ping_timestamp
    extract_pong_timestamp extract_timestamp with_flags encode_timestamp
extract_ping-create_ping t h =
    let same = decode-encode_timestamp t h in
    (refl, same, refl, ap (λ x. decode_timestamp (encode_timestamp x)) same ∙ same, refl)
