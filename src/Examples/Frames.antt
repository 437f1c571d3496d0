-- ===== src/Examples/Frames.antt =====
-- Messages of the wire protocol, sent and received.
use serverlink.Prelude.{
  ℕ, ◌≤◌, ◌≡◌, refl, Bool, true, false, Option, none, some, List, [], ◌∷◌, ◌++◌, map, arith, Bytes,
  length, replicate, leb,
}
use serverlink.Msg.{Msg, is_more, is_command, is_subscribe, is_cancel}
use serverlink.Protocol.Header.{size_bytes, v2_mark, v2_header}
use serverlink.Protocol.Decoder.{Decoder, exceeds}
use serverlink.Protocol.Stream.{parse, reads, concat, reads-parse}
use serverlink.Protocol.Encoder.{Encoder, fresh, load_msg}
use serverlink.Protocol.Owed.{IsValid}
use serverlink.Protocol.Sending.{encode_all, load-encode_all}
use serverlink.Protocol.Frame.{idle}
use serverlink.Protocol.Roundtrip.{arrival, v2_arrival, stream, parse-v2_stream, parse-v2_odd_size}

-- "hi", followed by more parts; a subscription to "a"; an empty message.
abbrev hi : Msg
hi = record { delimiter = false; flags = 1; body = 104 ∷ 105 ∷ [] }

abbrev subscription : Msg
subscription = record { delimiter = false; flags = 12; body = 97 ∷ [] }

abbrev nothing : Msg
nothing = record { delimiter = false; flags = 0; body = [] }

abbrev messages : List Msg
messages = hi ∷ subscription ∷ nothing ∷ []

parse-v2_stream_example :
    ((parse (stream v2_header messages) (idle (some 100) 0 nothing)).messages
      ≡ map v2_arrival messages)
    × ((parse (stream v2_header messages) (idle (some 100) 0 nothing)).gave_up ≡ false)
unfolding v2_mark exceeds is_subscribe is_cancel
parse-v2_stream_example =
    parse-v2_stream (some 100) messages 0 nothing (
      ((omega arith, refl), refl),
      (((omega arith, refl), refl), (((omega arith, refl), refl), tt)),
    )

abbrev odd : Msg
odd = record { delimiter = false; flags = 12; body = replicate 255 97 }

parse-v2_odd_size_example :
    (later : List Msg) × ((parse (v2_header odd ++ (odd.body ++ [])) (idle none 0 nothing)).messages
      ≡ arrival (is_more odd) (is_command odd) [] ∷ later)
unfolding is_subscribe is_cancel
parse-v2_odd_size_example = parse-v2_odd_size none 0 nothing odd [] refl

abbrev blocks : List Bytes
blocks = (1 ∷ 2 ∷ 104 ∷ []) ∷ [] ∷ (105 ∷ 0 ∷ []) ∷ (0 ∷ []) ∷ []

abbrev fits : Decoder → Bytes → Bool
fits d xs = leb (length xs) d.to_read

fits_allowed : (d : Decoder) (xs : Bytes) → fits d xs ≡ true → length xs ≤ d.to_read
fits_allowed d xs h = ground arith

reads-parse_example :
    reads fits blocks (idle none 0 nothing) ≡ parse (concat blocks) (idle none 0 nothing)
reads-parse_example = reads-parse fits fits_allowed blocks (idle none 0 nothing) (omega arith)

idle_encoder : IsValid (fresh 8)
unfolding fresh
idle_encoder = record { agree = refl; clear = λ e. (refl, refl); roomy = omega arith }

-- The encoder's own buffer and one of three bytes, by turns.
abbrev buffers : List (Option ℕ)
buffers = some 3 ∷ none ∷ some 3 ∷ none ∷ some 3 ∷ []

load-encode_all_example :
    (e : Encoder) × (encode_all v2_header buffers (load_msg v2_header hi (fresh 8))
      ≡ some (v2_header hi ++ hi.body, e))
    × (e.in_progress ≡ none)
    × IsValid e
unfolding fresh v2_header size_bytes v2_mark is_subscribe is_cancel
load-encode_all_example =
    load-encode_all v2_header hi buffers (fresh 8) (omega arith, (omega arith, (omega arith, tt)))
      idle_encoder refl (omega arith)
