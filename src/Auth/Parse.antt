-- ===== src/Auth/Parse.antt =====
-- `parse_metadata` of src/auth/mechanism.cpp.
use serverlink.Prelude.{
  ℕ, zero, suc, ltb, Bool, true, false, ◌&&◌, if◌then◌else◌, none, some, List, [], ◌∷◌, Bytes,
  bytes_eq, bytes_beq, find, insert, length, take, drop,
}
use serverlink.Wire.{get_uint32}
use serverlink.Auth.{Options, check_socket_type, identity_name, socket_type_name}

-- What the mechanism learns of its peer.
pub record Peer : Type 0 where
  pub routing_id : Bytes
  pub zmtp_properties : List (Bytes × Bytes)

-- 0, and -1 with the `errno`.
pub data Outcome : Type 0 where
  accepted einval eproto : Outcome

unfoldable pub no_peer : Peer
no_peer = record { routing_id = []; zmtp_properties = [] }

-- `std::map::insert` keeps the value that a key has.
abbrev pub insert_new : Bytes → Bytes → List (Bytes × Bytes) → List (Bytes × Bytes)
insert_new name value m = elim (find name m) [ none ↦ insert name value m | some old ↦ m ]

-- One property; `property` accepts all others.
unfoldable pub take_property : Options → Bytes → Bytes → Peer → Bool × Peer
take_property o name value p =
    let p' = record p { zmtp_properties = insert_new name value p.zmtp_properties } in
    if bytes_beq name identity_name && o.recv_routing_id
    then (true, record p' { routing_id = value })
    else if bytes_beq name socket_type_name
    then (if check_socket_type o.socket_type value then (true, p') else (false, p))
    else (true, p')

-- After the loop.
abbrev pub finish : Bytes → Peer → Outcome × Peer
finish [] p = (accepted, p)
finish (x ∷ xs) p = (eproto, p)

-- A round of the loop after the length of the name; `more` is what comes after it.
unfoldable pub parse_round :
    Options → ℕ → Bytes → Peer → (Bytes → Peer → Outcome × Peer) → Outcome × Peer
unfolding take_property
parse_round o n bytes p more =
    let after_name = drop n bytes in
    let size = get_uint32 after_name in
    let after_size = drop 4 after_name in
    let (fine, p') = take_property o (take n bytes) (take size after_size) p in
    if ltb (length bytes) n
    then finish bytes p
    else if ltb (length after_name) 4
    then finish after_name p
    else if ltb (length after_size) size
    then finish after_size p
    else if fine
    then more (drop size after_size) p'
    else (einval, p')

-- Each round takes two bytes at least, so the length is fuel enough.
unfoldable pub parse_loop : ℕ → Options → Bytes → Peer → Outcome × Peer
unfolding parse_round
parse_loop zero o bytes p = finish bytes p
parse_loop (suc f) o [] p = finish [] p
parse_loop (suc f) o (n ∷ []) p = finish (n ∷ []) p
parse_loop (suc f) o (n ∷ (x ∷ xs)) p = parse_round o n (x ∷ xs) p (parse_loop f o)

unfoldable pub parse_metadata : Options → Bytes → Peer → Outcome × Peer
unfolding parse_loop
parse_metadata o bytes p = parse_loop (length bytes) o bytes p
