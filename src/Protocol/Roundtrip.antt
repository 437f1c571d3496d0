-- ===== src/Protocol/Roundtrip.antt =====
-- What the peer's decoder makes of the messages that an encoder sends.
use serverlink.Prelude.{
  ℕ, ◌+◌, ◌<◌, ◌^◌, ◌≡◌, refl, sym, ap, ◌∙◌, Bool, true, false, Option, none, some, List, [], ◌∷◌,
  ◌++◌, append_assoc, map, Bytes, length, arith, if◌then◌else◌, ltb, ◌==◌, ◌||◌, ◌&&◌,
}
use serverlink.Wire.{put_uint64}
use serverlink.Msg.{Msg, has_bit, with_flags, is_more, is_command, is_subscribe, is_cancel}
use serverlink.Protocol.Header.{
  size_bytes, v2_mark, v2_flags, v2_header, v3_1_mark, v3_1_size, v3_1_header, flags_byte,
}
use serverlink.Protocol.Decoder.{exceeds, ready}
use serverlink.Protocol.Stream.{Input, parse, parse-finish, finish, deliver}
use serverlink.Protocol.Frame.{idle, msg_bits, scan-frame}

abbrev pub arrival_flags : Bool → Bool → ℕ
arrival_flags more command = (if more then 1 else 0) + (if command then 2 else 0)

-- The message that arrives for a frame that says `more`, `command` and has this content.
abbrev pub arrival : Bool → Bool → Bytes → Msg
arrival more command content = with_flags (arrival_flags more command) content

-- Before ZMTP 3.1 a subscription arrives as its topic behind a byte 1, a cancellation behind a 0.
abbrev pub v2_arrival : Msg → Msg
v2_arrival m = arrival (is_more m) (is_command m) (v2_mark m ++ m.body)

-- From ZMTP 3.1 on both arrive as commands, the topic behind the command's name.
abbrev pub v3_1_arrival : Msg → Msg
v3_1_arrival m =
    arrival (is_more m) (is_command m || (is_subscribe m || is_cancel m)) (v3_1_mark m ++ m.body)

msg_bits-flags_byte :
    (more large command : Bool)
    → (msg_bits (flags_byte more large command) ≡ arrival_flags more command)
      × (has_bit (flags_byte more large command) 2 ≡ large)
msg_bits-flags_byte true true true = (refl, refl)
msg_bits-flags_byte true true false = (refl, refl)
msg_bits-flags_byte true false true = (refl, refl)
msg_bits-flags_byte true false false = (refl, refl)
msg_bits-flags_byte false true true = (refl, refl)
msg_bits-flags_byte false true false = (refl, refl)
msg_bits-flags_byte false false true = (refl, refl)
msg_bits-flags_byte false false false = (refl, refl)

parse-flagged :
    (limit : Option ℕ) (bits : ℕ) (m : Msg) (more large command : Bool) (content rest : Bytes)
    → large ≡ ltb 255 (length content)
    → length content < 2 ^ 64
    → exceeds limit (length content) ≡ false
    → parse
        (flags_byte more large command ∷ (size_bytes (length content) ++ (content ++ rest)))
        (idle limit bits m)
      ≡ deliver
          (arrival more command content)
          (parse rest (idle limit (arrival_flags more command) (arrival more command content)))
parse-flagged limit bits m more large command content rest e h k =
    let (f, l) = msg_bits-flags_byte more large command in
    parse-finish
      (flags_byte more large command ∷ (size_bytes (length content) ++ (content ++ rest)))
      (idle limit bits m)
    ∙ ap finish (scan-frame limit bits (flags_byte more large command) m content rest (l ∙ e) h k)
    ∙ ap (λ g. finish (ready, rest, idle limit g (with_flags g content))) f

-- A subscription or cancellation whose topic has 255 bytes.
abbrev pub is_odd_size : Msg → Bool
is_odd_size m = (is_subscribe m || is_cancel m) && (length m.body == 255)

v2_size :
    (m : Msg)
    → (if is_subscribe m || is_cancel m then length m.body + 1 else length m.body)
      ≡ length (v2_mark m ++ m.body)
unfolding v2_mark
v2_size m = ground arith

v2_large :
    (m : Msg)
    → is_odd_size m ≡ false
    → ltb 255 (length m.body) ≡ ltb 255 (length (v2_mark m ++ m.body))
unfolding v2_mark
v2_large m h = ground arith

v3_1_size-length : (m : Msg) → v3_1_size m ≡ length (v3_1_mark m ++ m.body)
unfolding v3_1_size v3_1_mark
v3_1_size-length m = ground arith

-- What the receiver needs of a message: its size fits 64 bits and the receiver's limit.
abbrev pub Fits : Option ℕ → Bytes → Type 0
Fits limit content = (length content < 2 ^ 64) × (exceeds limit (length content) ≡ false)

abbrev pub V2Fits : Option ℕ → Msg → Type 0
V2Fits limit m = Fits limit (v2_mark m ++ m.body) × (is_odd_size m ≡ false)

abbrev pub V31Fits : Option ℕ → Msg → Type 0
V31Fits limit m = Fits limit (v3_1_mark m ++ m.body)

abbrev pub All : (Msg → Type 0) → List Msg → Type 0
All P [] = Unit
All P (m ∷ ms) = P m × All P ms

-- The byte stream of a sequence of messages.
abbrev pub stream : (Msg → Bytes) → List Msg → Bytes
stream header [] = []
stream header (m ∷ ms) = header m ++ (m.body ++ stream header ms)

regroup :
    (f n n' : ℕ) (mark body rest : Bytes)
    → n ≡ n'
    → f ∷ (size_bytes n ++ mark) ++ (body ++ rest) ≡ f ∷ (size_bytes n' ++ (mark ++ body ++ rest))
regroup f n n' mark body rest e =
    ap (λ l. f ∷ l)
      (append_assoc (size_bytes n) mark (body ++ rest)
        ∙ ap (λ l. size_bytes n ++ l) (sym (append_assoc mark body rest))
        ∙ ap (λ k. size_bytes k ++ (mark ++ body ++ rest)) e)

parse-v2 :
    (limit : Option ℕ) (bits : ℕ) (m' m : Msg) (rest : Bytes)
    → V2Fits limit m
    → parse (v2_header m ++ (m.body ++ rest)) (idle limit bits m')
      ≡ deliver
          (v2_arrival m)
          (parse rest (idle limit (arrival_flags (is_more m) (is_command m)) (v2_arrival m)))
unfolding v2_header v2_flags
parse-v2 limit bits m' m rest ((h, k), o) =
    ap (λ l. parse l (idle limit bits m'))
      (regroup (v2_flags m) _ _ (v2_mark m) m.body rest (v2_size m))
    ∙ parse-flagged limit bits m' (is_more m) (ltb 255 (length m.body)) (is_command m)
        (v2_mark m ++ m.body) rest (v2_large m o) h k

parse-v3_1 :
    (limit : Option ℕ) (bits : ℕ) (m' m : Msg) (rest : Bytes)
    → V31Fits limit m
    → parse (v3_1_header m ++ (m.body ++ rest)) (idle limit bits m')
      ≡ deliver (v3_1_arrival m) (
          parse rest (
            idle limit
              (arrival_flags (is_more m) (is_command m || (is_subscribe m || is_cancel m)))
              (v3_1_arrival m)))
unfolding v3_1_header
parse-v3_1 limit bits m' m rest (h, k) =
    ap (λ l. parse l (idle limit bits m'))
      (regroup _ _ _ (v3_1_mark m) m.body rest (v3_1_size-length m))
    ∙ parse-flagged limit bits m' (is_more m) (ltb 255 (v3_1_size m))
        (is_command m || (is_subscribe m || is_cancel m)) (v3_1_mark m ++ m.body) rest
        (ap (ltb 255) (v3_1_size-length m)) h k

deliver_first :
    (m : Msg) (i : Input) (ms : List Msg)
    → (i.messages ≡ ms) × (i.gave_up ≡ false)
    → ((deliver m i).messages ≡ m ∷ ms) × ((deliver m i).gave_up ≡ false)
unfolding deliver
deliver_first m i ms (e, g) = (ap (λ l. m ∷ l) e, g)

module _ (header : Msg → Bytes) (arrive : Msg → Msg) (flags : Msg → ℕ) (limit : Option ℕ)
    (P : Msg → Type 0)
    (one : (bits : ℕ) (m' m : Msg) (rest : Bytes)
      → P m
      → parse (header m ++ (m.body ++ rest)) (idle limit bits m')
        ≡ deliver (arrive m) (parse rest (idle limit (flags m) (arrive m)))) where
  parse-stream :
      (bits : ℕ) (m' : Msg) (ms : List Msg)
      → All P ms
      → ((parse (stream header ms) (idle limit bits m')).messages ≡ map arrive ms)
        × ((parse (stream header ms) (idle limit bits m')).gave_up ≡ false)
  parse-stream bits m' [] a = unfold parse in (refl, refl)
  parse-stream bits m' (m ∷ ms) a =
      rw (one bits m' m (stream header ms) a.0)
        (deliver_first (arrive m) _ (map arrive ms) (parse-stream (flags m) (arrive m) ms a.1))

-- Every sequence of messages that a ZMTP 2 encoder sends is taken in as it was sent, in order, with
-- flags `more` and `command` kept and a subscription's topic behind its byte: if each message fits
-- 64 bits and the receiver's limit, and none is a subscription or cancellation of 255 bytes. The
-- stream is not given up.
pub parse-v2_stream :
    (limit : Option ℕ) (ms : List Msg) (bits : ℕ) (m' : Msg)
    → All (V2Fits limit) ms
    → ((parse (stream v2_header ms) (idle limit bits m')).messages ≡ map v2_arrival ms)
      × ((parse (stream v2_header ms) (idle limit bits m')).gave_up ≡ false)
parse-v2_stream limit ms bits m' =
    parse-stream v2_header v2_arrival (λ m. arrival_flags (is_more m) (is_command m)) limit
      (V2Fits limit) (parse-v2 limit) bits m' ms

-- The same of a ZMTP 3.1 encoder, where subscriptions and cancellations arrive as commands, of any
-- size that fits.
pub parse-v3_1_stream :
    (limit : Option ℕ) (ms : List Msg) (bits : ℕ) (m' : Msg)
    → All (V31Fits limit) ms
    → ((parse (stream v3_1_header ms) (idle limit bits m')).messages ≡ map v3_1_arrival ms)
      × ((parse (stream v3_1_header ms) (idle limit bits m')).gave_up ≡ false)
parse-v3_1_stream limit ms bits m' =
    parse-stream v3_1_header v3_1_arrival
      (λ m. arrival_flags (is_more m) (is_command m || (is_subscribe m || is_cancel m))) limit
      (V31Fits limit) (parse-v3_1 limit) bits m' ms

exceeds-zero : (limit : Option ℕ) → exceeds limit 0 ≡ false
unfolding exceeds
exceeds-zero none = refl
exceeds-zero (some n) = ground arith

odd_size_header :
    (m : Msg)
    → is_odd_size m ≡ true
    → v2_header m
      ≡ flags_byte (is_more m) false (is_command m) ∷ 0 ∷ 0 ∷ 0 ∷ 0 ∷ 0 ∷ 0 ∷ 1 ∷ 0 ∷ v2_mark m
unfolding v2_header put_uint64
odd_size_header m h = rw (marked, size) refl
  where
    marked : (is_subscribe m || is_cancel m) ≡ true
    marked = ground arith

    size : length m.body ≡ 255
    size = ground arith

-- A subscription or cancellation whose topic has 255 bytes is misread, whatever the receiver's
-- limit: the encoder writes a size of eight bytes but not the flag that says so, and the receiver
-- makes an empty message of the first of them.
pub parse-v2_odd_size :
    (limit : Option ℕ) (bits : ℕ) (m' m : Msg) (rest : Bytes)
    → is_odd_size m ≡ true
    → (later : List Msg) × ((parse (v2_header m ++ (m.body ++ rest)) (idle limit bits m')).messages
        ≡ arrival (is_more m) (is_command m) [] ∷ later)
unfolding deliver size_bytes
parse-v2_odd_size limit bits m' m rest h =
    let tail = 0 ∷ 0 ∷ 0 ∷ 0 ∷ 0 ∷ 1 ∷ 0 ∷ v2_mark m ++ (m.body ++ rest) in
    (
      _,
      ap (λ l. (parse (l ++ (m.body ++ rest)) (idle limit bits m')).messages) (odd_size_header m h)
          ∙ ap (λ (i : Input). i.messages)
              (parse-flagged limit bits m' (is_more m) false (is_command m) [] tail refl
                (omega arith) (exceeds-zero limit)),
    )
