-- ===== src/Auth/Null.antt =====
-- src/auth/null_mechanism.cpp: the handshake of two peers without security. Each sends READY with its
-- properties, and takes one READY or ERROR of the other.
use serverlink.Prelude.{
  ◌-◌, ◌≡◌, refl, ap, ◌∙◌, leb, ltb, Bool, true, false, ◌&&◌, ◌||◌, if◌then◌else◌, none, some, [],
  ◌∷◌, ◌++◌, Bytes, bytes_beq, length, take, drop, get_or, arith,
}
use serverlink.Auth.{Options, make_command_with_basic_properties}
use serverlink.Auth.Parse.{Peer, Outcome, accepted, eproto, parse_metadata, no_peer}
use serverlink.Auth.Exchange.{Fits, properties, take_all_of}
use serverlink.Auth.Compat.{parse_metadata-make_command}

-- "\5READY" and "\5ERROR"
abbrev pub ready_command_name : Bytes
ready_command_name = 5 ∷ 82 ∷ 69 ∷ 65 ∷ 68 ∷ 89 ∷ []

abbrev pub error_command_name : Bytes
error_command_name = 5 ∷ 69 ∷ 82 ∷ 82 ∷ 79 ∷ 82 ∷ []

pub record NullMechanism : Type 0 where
  pub ready_command_sent : Bool
  pub error_command_sent : Bool
  pub ready_command_received : Bool
  pub error_command_received : Bool
  pub peer : Peer

unfoldable pub new_mechanism : NullMechanism
unfolding no_peer
new_mechanism = record {
  ready_command_sent = false;
  error_command_sent = false;
  ready_command_received = false;
  error_command_received = false;
  peer = no_peer;
}

-- EAGAIN, a failed assertion, or the command to send.
pub data Next : Type 0 where
  again broken : Next
  command : Bytes → Next

unfoldable pub next_handshake_command : Options → NullMechanism → Next × NullMechanism
next_handshake_command o s =
    if s.ready_command_sent || s.error_command_sent
    then (again, s)
    else elim (make_command_with_basic_properties o ready_command_name) [
      | none ↦ (broken, s)
      | some bytes ↦ (command bytes, record s { ready_command_sent = true })
    ]

-- `memcmp` of the first bytes, where there are enough of them.
abbrev pub has_name : Bytes → Bytes → Bool
has_name name bytes = leb (length name) (length bytes) && bytes_beq (take (length name) bytes) name

unfoldable pub process_ready_command : Options → Bytes → NullMechanism → Outcome × NullMechanism
process_ready_command o bytes s =
    let (outcome, peer) = parse_metadata o (drop 6 bytes) s.peer in
    (outcome, record s { ready_command_received = true; peer = peer })

unfoldable pub process_error_command : Bytes → NullMechanism → Outcome × NullMechanism
process_error_command bytes s =
    if ltb (length bytes) 7
    then (eproto, s)
    else if ltb (length bytes - 7) (get_or bytes 6 0)
    then (eproto, s)
    else (accepted, record s { error_command_received = true })

unfoldable pub process_handshake_command : Options → Bytes → NullMechanism → Outcome × NullMechanism
process_handshake_command o bytes s =
    if s.ready_command_received || s.error_command_received
    then (eproto, s)
    else if has_name ready_command_name bytes
    then process_ready_command o bytes s
    else if has_name error_command_name bytes
    then process_error_command bytes s
    else (eproto, s)

pub data Status : Type 0 where
  handshaking ready error : Status

unfoldable pub status : NullMechanism → Status
status s =
    if s.ready_command_sent && s.ready_command_received
    then ready
    else if (s.ready_command_sent || s.error_command_sent)
        && (s.ready_command_received || s.error_command_received)
    then error
    else handshaking

has_name-append : (bytes : Bytes) → has_name ready_command_name (ready_command_name ++ bytes) ≡ true
has_name-append bytes = ground arith

processed :
    (o : Options) (bytes : Bytes) (y : NullMechanism)
    → y.ready_command_received ≡ false
    → y.error_command_received ≡ false
    → process_handshake_command o (ready_command_name ++ bytes) y ≡ (
      (parse_metadata o bytes y.peer).0,
      record y { ready_command_received = true; peer = (parse_metadata o bytes y.peer).1 },
    )
unfolding process_handshake_command process_ready_command
processed o bytes y h k = ground (arith, has_name-append bytes)

sent_ready :
    (o : Options) (x : NullMechanism) (bytes : Bytes)
    → x.ready_command_sent ≡ false
    → x.error_command_sent ≡ false
    → make_command_with_basic_properties o ready_command_name ≡ some bytes
    → next_handshake_command o x ≡ (command bytes, record x { ready_command_sent = true })
unfolding next_handshake_command
sent_ready o x bytes s t e = ground arith

-- A mechanism that has sent nothing sends READY, if its properties have lengths that the format can
-- hold, and has then sent it; a peer that has received nothing takes it for READY, and takes on the
-- properties in their order, as its own options make of them.
pub process-next :
    (a b : Options) (x y : NullMechanism)
    → Fits (properties a)
    → x.ready_command_sent ≡ false
    → x.error_command_sent ≡ false
    → y.ready_command_received ≡ false
    → y.error_command_received ≡ false
    → (bytes : Bytes) × (next_handshake_command a x
        ≡ (command bytes, record x { ready_command_sent = true }))
      × (process_handshake_command b bytes y ≡ (
        (take_all_of b (properties a) y.peer).0,
        record y { ready_command_received = true; peer = (take_all_of b (properties a) y.peer).1 },
      ))
unfolding next_handshake_command
process-next a b x y h s t r e =
    let (bytes, sent, taken) = parse_metadata-make_command a b ready_command_name y.peer h in
    (
      ready_command_name ++ bytes,
      sent_ready a x (ready_command_name ++ bytes) s t sent,
      processed b bytes y r e
          ∙ ap
              (λ (q : Outcome × Peer).
                (q.0, record y { ready_command_received = true; peer = q.1 }))
              taken,
    )

ready_received :
    (o : Options) (bytes : Bytes) (s : NullMechanism)
    → (process_ready_command o bytes s).1.ready_command_received ≡ true
unfolding process_ready_command
ready_received o bytes s = refl

error_received :
    (bytes : Bytes) (s s' : NullMechanism)
    → process_error_command bytes s ≡ (accepted, s')
    → s'.error_command_received ≡ true
unfolding process_error_command
error_received bytes s s' h = ground arith

received :
    (o : Options) (bytes : Bytes) (s s' : NullMechanism)
    → process_handshake_command o bytes s ≡ (accepted, s')
    → (s'.ready_command_received || s'.error_command_received) ≡ true
unfolding process_handshake_command
received o bytes s s' h = ground (arith, ready_received o bytes s, error_received bytes s s')

-- Once a command was accepted, every further one is refused, and changes nothing.
pub process_handshake_command-once :
    (o : Options) (bytes later : Bytes) (s s' : NullMechanism)
    → process_handshake_command o bytes s ≡ (accepted, s')
    → process_handshake_command o later s' ≡ (eproto, s')
unfolding process_handshake_command
process_handshake_command-once o bytes later s s' h = rw (received o bytes s s' h) refl
