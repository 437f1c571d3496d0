-- ===== src/Protocol/Calls.antt =====
-- A call of `encode` in src/protocol/encoder.hpp, whatever buffer it is given.
use serverlink.Prelude.{
  ℕ, ◌<◌, ◌≡◌, refl, sym, inl, inr, Bool, true, false, Option, none, some, [], ◌++◌, Bytes, arith,
  Option-cases,
}
use mathlib.Core.Path.{subst}
use serverlink.Msg.{Msg}
use serverlink.Protocol.Encoder.{Encoder, Step, encode}
use serverlink.Protocol.Owed.{pending, left, Agree, IsValid, Pays, busy}
use serverlink.Protocol.Batches.{loop-Pays}

abbrev pub room : Option ℕ → Encoder → ℕ
room none e = e.buf_size
room (some size) e = size

abbrev pub is_own : Option ℕ → Bool
is_own none = true
is_own (some size) = false

encode-idle :
    (header : Msg → Bytes) (supplied : Option ℕ) (e : Encoder)
    → e.in_progress ≡ none
    → encode header supplied e ≡ some ([], e)
unfolding encode
encode-idle header supplied e h = ground arith

busy-eq :
    (m : Msg) (e : Encoder)
    → e.in_progress ≡ some m
    → e ≡ busy m e.buf_size e.write e.next e.new_msg_flag
busy-eq m e h = ground arith

busy-Pays :
    (header : Msg → Bytes) (supplied : Option ℕ) (m : Msg) (buf : ℕ) (w : Bytes) (s : Step)
    (b : Bool)
    → 0 < buf
    → Agree s b
    → 0 < room supplied (busy m buf w s b)
    → Pays
        (room supplied (busy m buf w s b))
        (is_own supplied)
        (w ++ pending s m)
        (encode header supplied (busy m buf w s b))
unfolding encode
busy-Pays header none m buf w s b q a pos = loop-Pays header buf true pos m buf q w s b a
busy-Pays header (some size) m buf w s b q a pos = loop-Pays header size false pos m buf q w s b a

-- A call of `encode` with a buffer that is not empty returns, and pays what it owes.
pub encode-Pays :
    (header : Msg → Bytes) (supplied : Option ℕ) (e : Encoder)
    → IsValid e
    → 0 < room supplied e
    → Pays (room supplied e) (is_own supplied) (left e) (encode header supplied e)
encode-Pays header supplied e v pos = elim (Option-cases e.in_progress) [
  | inl idle ↦ rw (encode-idle header supplied e idle) (refl, v, inl idle, inl (omega arith))
  | inr (m, b) ↦
      subst
        (λ x.
          0 < room supplied x
          → Pays (room supplied x) (is_own supplied) (left x) (encode header supplied x))
        (sym (busy-eq m e b))
        (busy-Pays header supplied m e.buf_size e.write e.next e.new_msg_flag v.roomy v.agree) pos
]
