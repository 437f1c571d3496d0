-- ===== src/Router/Routing.antt =====
-- Where the parts of a message go (src/core/router.cpp).
use serverlink.Prelude.{
  ℕ, ◌≡◌, ◌≢◌, refl, ◌↔◌, inl, inr, arith, Bool, true, false, not, ◌&&◌, if◌then◌else◌, Option,
  none, some, List, [], ◌∷◌, Bytes, bytes_eq, bytes_beq, bytes_beq_iff, find, find-insert, insert,
  Option-cases, Bool-cases,
}
use serverlink.Msg.{Msg, is_more}
use serverlink.Peers.{Peers}
use serverlink.Router.{Router}
use serverlink.Router.Table.{lookup_out_pipe, OutPipe, OutPipes}
use serverlink.Router.Send.{Sent, sent, eagain, ehostunreach, broken, send_id, send_part, xsend}

abbrev pub is_some : Option ℕ → Bool
is_some none = false
is_some (some p) = true

-- All parts but the last say that more follow.
abbrev pub is_message : List Msg → Bool
is_message [] = false
is_message (m ∷ []) = not (is_more m)
is_message (m ∷ n ∷ ms) = is_more m && is_message (n ∷ ms)

-- The socket is between two messages.
pub record IsIdle (r : Router) : Type 0 where
  pub out : r.current_out ≡ none
  pub more : r.more_out ≡ false

abbrev pub pipe_of : Bytes → OutPipes → Option ℕ
pipe_of id m = elim (find id m) [ none ↦ none | some o ↦ some o.pipe ]

abbrev pub all_sent : Sent → Bool → Bool
all_sent sent b = b
all_sent eagain b = false
all_sent ehostunreach b = false
all_sent broken b = false

pub pipe_of-refused :
    (id k : Bytes) (o : OutPipe) (m : OutPipes)
    → find k m ≡ some o
    → pipe_of id (insert k (record o { active = false }) m) ≡ pipe_of id m
pipe_of-refused id k o m e = elim (Bool-cases (bytes_beq k id)) [
  | inl h ↦
      ground
        (arith, find-insert k id (record o { active = false }) m, (bytes_beq_iff k id).0 h, h, e)
  | inr h ↦ ground (arith, find-insert k id (record o { active = false }) m, h)
]

module _ {S : Type 0} ⦃peers : Peers S⦄ where
  -- The parts one after the other, and whether `xsend` took them all.
  unfoldable pub send_all : List Msg → Router → S → Bool × Router × S
  send_all [] r s = (true, r, s)
  send_all (m ∷ ms) r s =
      let x = xsend m r s in let y = send_all ms x.1 x.2 in (all_sent x.0 y.0, y.1, y.2)

  -- The parts are written to one pipe and flushed at the end, or rolled back.
  unfoldable pub deliver : ℕ → List Msg → S → S
  deliver p [] s = peers.flush p s
  deliver p (m ∷ ms) s =
      if (peers.write p m s).0
      then deliver p ms (peers.write p m s).1
      else peers.rollback p (peers.write p m s).1

  -- The next part of a message whose first part was accepted.
  record Sends (o : Option ℕ) (m : Msg) (r : Router) (s : S) : Type 0 where
    result : (xsend m r s).0 ≡ sent
    more : (xsend m r s).1.more_out ≡ is_more m
    out : (xsend m r s).1.current_out ≡ elim o [
      | none ↦ none
      | some p ↦ if (peers.write p m s).0 && is_more m then some p else none
    ]
    pipes : (xsend m r s).1.out_pipes ≡ r.out_pipes
    raw : (xsend m r s).1.raw_option ≡ false
    raw_socket : (xsend m r s).1.raw_socket ≡ false
    state : (xsend m r s).2 ≡ elim o [
      | none ↦ s
      | some p ↦
          let w = peers.write p m s in
          if not w.0 then peers.rollback p w.1 else if is_more m then w.1 else peers.flush p w.1
    ]

  sends :
      (o : Option ℕ) (m : Msg) (r : Router) (s : S)
      → r.more_out ≡ true
      → r.current_out ≡ o
      → r.raw_option ≡ false
      → r.raw_socket ≡ false
      → Sends o m r s
  unfolding xsend send_part
  sends none m r s a c b e =
      rw (a, b, e, c)
        (record {
          result = refl;
          more = refl;
          out = refl;
          pipes = refl;
          raw = refl;
          raw_socket = refl;
          state = refl;
        })
  sends (some p) m r s a c b e = elim (Bool-cases (peers.write p m s).0) [
    | inr w ↦ ground (arith, w)
    | inl w ↦ ground (arith, w, Bool-cases (is_more m))
  ]

  -- The parts after the first one, for the pipe `o` or for none.
  abbrev rest_state : Option ℕ → List Msg → S → S
  rest_state none ms s = s
  rest_state (some p) ms s = deliver p ms s

  send_all_rest :
      (ms : List Msg) (o : Option ℕ) (r : Router) (s : S)
      → is_message ms ≡ true
      → r.more_out ≡ true
      → r.current_out ≡ o
      → r.raw_option ≡ false
      → r.raw_socket ≡ false
      → let y = send_all ms r s in
        (y.0 ≡ true) × IsIdle y.1 × (y.1.out_pipes ≡ r.out_pipes) × (y.2 ≡ rest_state o ms s)
  unfolding send_all deliver
  send_all_rest [] o r s h a b c e = cc
  send_all_rest (m ∷ []) none r s h a b c e = ground (arith, sends none m r s a b c e)
  send_all_rest (m ∷ []) (some p) r s h a b c e = ground (arith, sends (some p) m r s a b c e)
  send_all_rest (m ∷ n ∷ ms) none r s h a b c e =
      let x = xsend m r s in
      ground (arith, sends none m r s a b c e, send_all_rest (n ∷ ms) none x.1 x.2)
  send_all_rest (m ∷ n ∷ ms) (some p) r s h a b c e =
      let x = xsend m r s in
      elim (Bool-cases (peers.write p m s).0) [
        | inl w ↦
            ground (arith, w, sends (some p) m r s a b c e, send_all_rest (n ∷ ms) (some p) x.1 x.2)
        | inr w ↦
            ground (arith, w, sends (some p) m r s a b c e, send_all_rest (n ∷ ms) none x.1 x.2)
      ]

  -- What becomes of the parts after the first one, `id`.
  abbrev pub routed : Bytes → List Msg → OutPipes → S → S
  routed id ms m s = elim (find id m) [
    | none ↦ s
    | some o ↦
        if (peers.check_write o.pipe s).0
        then deliver o.pipe ms (peers.check_write o.pipe s).1
        else (peers.check_write o.pipe s).1
  ]

  -- The pipe that the first part of a message gives, if it can be written to.
  abbrev pub writable : Bytes → OutPipes → S → Option ℕ
  writable id m s = elim (find id m) [
    | none ↦ none
    | some o ↦ if (peers.check_write o.pipe s).0 then some o.pipe else none
  ]

  abbrev after_check : Bytes → OutPipes → S → S
  after_check id m s = elim (find id m) [ none ↦ s | some o ↦ (peers.check_write o.pipe s).1 ]

  -- The first part of a message, which names the peer.
  record Names (m : Msg) (r : Router) (s : S) : Type 0 where
    out : (xsend m r s).1.current_out ≡ writable m.body r.out_pipes s
    state : (xsend m r s).2 ≡ after_check m.body r.out_pipes s
    raw : (xsend m r s).1.raw_option ≡ r.raw_option
    raw_socket : (xsend m r s).1.raw_socket ≡ r.raw_socket
    known : (id : Bytes) → pipe_of id (xsend m r s).1.out_pipes ≡ pipe_of id r.out_pipes
    lax : r.mandatory ≡ false → (xsend m r s).0 ≡ sent
    accepted : (xsend m r s).0 ≡ sent → (xsend m r s).1.more_out ≡ true
    refused : (xsend m r s).0 ≢ sent → (xsend m r s).1.more_out ≡ false
    strict :
        r.mandatory ≡ true
        → ((xsend m r s).0 ≡ sent) ↔ (is_some (writable m.body r.out_pipes s) ≡ true)

  names : (m : Msg) (r : Router) (s : S) → IsIdle r → is_more m ≡ true → Names m r s
  unfolding xsend send_id lookup_out_pipe
  names m r s i h = elim (Option-cases (find m.body r.out_pipes)) [
    | inl e ↦ ground (arith, e)
    | inr (o, e) ↦ elim (Bool-cases (peers.check_write o.pipe s).0) [
      | inl w ↦ ground (arith, e, w)
      | inr w ↦ ground (
        arith,
        e,
        w,
        Bool-cases r.mandatory,
        λ (id : Bytes). pipe_of-refused id m.body o r.out_pipes e,
      )
    ]
  ]

  routed_lem :
      (id : Bytes) (ms : List Msg) (m : OutPipes) (s : S)
      → routed id ms m s ≡ rest_state (writable id m s) ms (after_check id m s)
  routed_lem id ms m s = elim (Option-cases (find id m)) [
    | inl e ↦ ground (arith, e)
    | inr (o, e) ↦ ground (arith, e, Bool-cases (peers.check_write o.pipe s).0)
  ]

  -- A socket that is between two messages, and not raw, takes the first part of a message always unless
  -- it is mandatory, and then just if the peer is known and its pipe can be written to. A part that it takes
  -- is followed by the others: they are written in order to the pipe of the peer whose id is the first part,
  -- and flushed after the last one, or rolled back and dropped from the first that the pipe refuses; a message
  -- for no peer, or for one whose pipe cannot be written to, is dropped whole. The socket is between two
  -- messages afterwards, also when it refuses the first part, and the peers have the pipes that they had.
  pub send_all-routed :
      (m : Msg) (ms : List Msg) (r : Router) (s : S)
      → IsIdle r
      → r.raw_option ≡ false
      → r.raw_socket ≡ false
      → is_more m ≡ true
      → is_message ms ≡ true
      → let x = xsend m r s in
        let y = send_all (m ∷ ms) r s in
        (r.mandatory ≡ false → x.0 ≡ sent)
        × (r.mandatory ≡ true → (x.0 ≡ sent) ↔ (is_some (writable m.body r.out_pipes s) ≡ true))
        × (x.0 ≢ sent
            → IsIdle x.1 × ((id : Bytes) → pipe_of id x.1.out_pipes ≡ pipe_of id r.out_pipes))
        × (x.0 ≡ sent
            → (y.0 ≡ true)
              × IsIdle y.1
              × ((id : Bytes) → pipe_of id y.1.out_pipes ≡ pipe_of id r.out_pipes)
              × (y.2 ≡ routed m.body ms r.out_pipes s))
  unfolding send_all
  send_all-routed m ms r s i a b h k =
      let x = xsend m r s in
      let n = names m r s i h in
      (
        n.lax,
        n.strict,
        ground (arith, n),
        λ t. ground (
          arith,
          n,
          n.accepted t,
          send_all_rest ms (writable m.body r.out_pipes s) x.1 x.2 k (n.accepted t) n.out,
          routed_lem m.body ms r.out_pipes s,
        ),
      )
