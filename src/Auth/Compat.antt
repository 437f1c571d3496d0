-- ===== src/Auth/Compat.antt =====
-- Two peers that tell one another their properties (src/auth/mechanism.cpp): whole commands, the ones
-- that no socket of a type accepts, and the ones that are cut off.
use serverlink.Prelude.{
  ℕ, ◌+◌, ◌-◌, ◌≤◌, ◌<◌, ◌^◌, ◌≡◌, refl, ◌∙◌, Bool, true, false, if◌then◌else◌, some, List, ◌∷◌,
  ◌++◌, drop_all, Bytes, length, arith,
}
use serverlink.Auth.{
  Options, SocketType, pair, property_len, add_property, then_add, socket_type_name, identity_name,
  socket_type_string, is_router, add_app_metadata, app_metadata_len, add_basic_properties,
  basic_properties_len, make_command_with_basic_properties, check_socket_type,
}
use serverlink.Auth.Parse.{Peer, accepted, einval, take_property, parse_round, parse_metadata}
use serverlink.Auth.Exchange.{
  encode, Fits, take_all_of, app_properties, properties, added, add_app_metadata-encode,
  parse_loop-encode, parse_loop-cons,
}

identity_first :
    (b : Bool) (rid : Bytes) (m : List (Bytes × Bytes)) (capacity : ℕ)
    → Fits (if b then (identity_name, rid) ∷ app_properties m else app_properties m)
    → app_metadata_len m + (if b then property_len identity_name rid else 0) ≤ capacity
    → (if b
        then then_add capacity (add_property capacity identity_name rid) (add_app_metadata m)
        else add_app_metadata m capacity)
      ≡ some (encode (if b then (identity_name, rid) ∷ app_properties m else app_properties m))
identity_first true rid m capacity h l =
    added capacity identity_name rid (encode (app_properties m)) (add_app_metadata m) h.0 h.1
      (omega arith)
      (add_app_metadata-encode m (capacity - property_len identity_name rid) h.2 (omega arith))
identity_first false rid m capacity h l = add_app_metadata-encode m capacity h (omega arith)

type_length : (t : SocketType) → length (socket_type_string t) < 2 ^ 31
type_length t = ground arith

add_basic_properties-encode :
    (o : Options)
    → Fits (properties o)
    → add_basic_properties o (basic_properties_len o) ≡ some (encode (properties o))
unfolding add_basic_properties basic_properties_len
add_basic_properties-encode o h =
    let type = socket_type_string o.socket_type in
    let more =
      (if is_router o.socket_type
        then (identity_name, o.routing_id) ∷ app_properties o.app_metadata
        else app_properties o.app_metadata) in
    added (basic_properties_len o) socket_type_name type (encode more)
      (λ left.
        if is_router o.socket_type
        then then_add left (add_property left identity_name o.routing_id)
            (add_app_metadata o.app_metadata)
        else add_app_metadata o.app_metadata left)
      h.0 h.1 (omega arith)
      (identity_first (is_router o.socket_type) o.routing_id o.app_metadata _ h.2 (omega arith))

-- The properties that a mechanism sends with a command, if their names and values have lengths that
-- the format can hold, fill the command exactly, and are taken on by the peer in the order in which
-- they were written; what it makes of each is up to its own options.
pub parse_metadata-make_command :
    (sender receiver : Options) (command : Bytes) (p : Peer)
    → Fits (properties sender)
    → (bytes : Bytes) × (make_command_with_basic_properties sender command
        ≡ some (command ++ bytes))
      × (parse_metadata receiver bytes p ≡ take_all_of receiver (properties sender) p)
unfolding make_command_with_basic_properties parse_metadata
parse_metadata-make_command sender receiver command p h = (
  encode (properties sender),
  rw (make_command_with_basic_properties, add_basic_properties-encode sender h) refl,
  parse_loop-encode (length (encode (properties sender))) receiver (properties sender) p
      (omega arith) h,
)

refused : (t : SocketType) (peer : Bytes) → t ≡ pair → check_socket_type t peer ≡ false
unfolding check_socket_type
refused t peer e = rw e refl

-- A PAIR socket accepts no peer: whatever a mechanism sends, of a PAIR or of any other type, it refuses
-- the type of the peer and takes on no property.
pub parse_metadata-pair :
    (sender receiver : Options) (p : Peer)
    → Fits (properties sender)
    → receiver.socket_type ≡ pair
    → parse_metadata receiver (encode (properties sender)) p ≡ (einval, p)
unfolding parse_metadata take_property
parse_metadata-pair sender receiver p h e =
    parse_loop-encode (length (encode (properties sender))) receiver (properties sender) p
      (omega arith) h
    ∙ rw (refused receiver.socket_type (socket_type_string sender.socket_type) e) refl

-- Metadata that breaks off after the name of its first property is accepted, with no property taken on.
pub parse_metadata-truncated :
    (o : Options) (name : Bytes) (p : Peer)
    → 0 < length name
    → parse_metadata o (length name ∷ name) p ≡ (accepted, p)
unfolding parse_metadata parse_round
parse_metadata-truncated o name p h =
    parse_loop-cons (length name) o (length name) name p h
    ∙ rw (drop_all (length name) name (omega arith)) (ground arith)
