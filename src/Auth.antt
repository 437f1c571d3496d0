-- ===== src/Auth.antt =====
-- src/auth/mechanism.cpp: the properties that two peers tell one another when they connect. A byte
-- buffer that is written is the list of its bytes, and `none` is a failed `slk_assert`.
pub mod Parse
pub mod Exchange
pub mod Compat
pub mod Null
use serverlink.Prelude.{
  ℕ, ◌+◌, ◌-◌, ◌^◌, ◌==◌, leb, ltb, Bool, true, false, ◌&&◌, ◌||◌, if◌then◌else◌, Option, none,
  some, List, [], ◌∷◌, ◌++◌, Bytes, bytes_beq, length,
}
use serverlink.Wire.{put_uint32}

pub data SocketType : Type 0 where
  pair pub_socket sub router xpub xsub : SocketType

-- What the mechanism reads of the options.
pub record Options : Type 0 where
  pub socket_type : SocketType
  pub routing_id : Bytes
  pub app_metadata : List (Bytes × Bytes)
  pub recv_routing_id : Bool

-- "PAIR", "PUB", "SUB", "ROUTER", "XPUB", "XSUB"
abbrev pub socket_type_string : SocketType → Bytes
socket_type_string pair = 80 ∷ 65 ∷ 73 ∷ 82 ∷ []
socket_type_string pub_socket = 80 ∷ 85 ∷ 66 ∷ []
socket_type_string sub = 83 ∷ 85 ∷ 66 ∷ []
socket_type_string router = 82 ∷ 79 ∷ 85 ∷ 84 ∷ 69 ∷ 82 ∷ []
socket_type_string xpub = 88 ∷ 80 ∷ 85 ∷ 66 ∷ []
socket_type_string xsub = 88 ∷ 83 ∷ 85 ∷ 66 ∷ []

-- The bytes of a string up to the first zero, which `strlen` counts.
abbrev pub c_str : Bytes → Bytes
c_str [] = []
c_str (c ∷ cs) = if c == 0 then [] else c ∷ c_str cs

abbrev pub property_len : Bytes → Bytes → ℕ
property_len name value = 1 + length name + 4 + length value

unfoldable pub add_property : ℕ → Bytes → Bytes → Option Bytes
add_property capacity name value =
    if leb (length name) 255
      && leb (property_len name value) capacity
      && ltb (length value) (2 ^ 31)
    then some (length name ∷ (name ++ (put_uint32 (length value) ++ value)))
    else none

-- "Socket-Type" and "Identity"
abbrev pub socket_type_name : Bytes
socket_type_name = 83 ∷ 111 ∷ 99 ∷ 107 ∷ 101 ∷ 116 ∷ 45 ∷ 84 ∷ 121 ∷ 112 ∷ 101 ∷ []

abbrev pub identity_name : Bytes
identity_name = 73 ∷ 100 ∷ 101 ∷ 110 ∷ 116 ∷ 105 ∷ 116 ∷ 121 ∷ []

abbrev pub then_add : ℕ → Option Bytes → (ℕ → Option Bytes) → Option Bytes
then_add capacity none more = none
then_add capacity (some bytes) more = elim (more (capacity - length bytes)) [
  | none ↦ none
  | some rest ↦ some (bytes ++ rest)
]

unfoldable pub add_app_metadata : List (Bytes × Bytes) → ℕ → Option Bytes
unfolding add_property
add_app_metadata [] capacity = some []
add_app_metadata ((name, value) ∷ m) capacity =
    then_add capacity (add_property capacity (c_str name) (c_str value)) (add_app_metadata m)

abbrev pub is_router : SocketType → Bool
is_router router = true
is_router _ = false

unfoldable pub add_basic_properties : Options → ℕ → Option Bytes
unfolding add_property add_app_metadata
add_basic_properties o capacity =
    then_add capacity (add_property capacity socket_type_name (socket_type_string o.socket_type))
      (λ left.
        if is_router o.socket_type
        then then_add left (add_property left identity_name o.routing_id)
            (add_app_metadata o.app_metadata)
        else add_app_metadata o.app_metadata left)

unfoldable pub app_metadata_len : List (Bytes × Bytes) → ℕ
app_metadata_len [] = 0
app_metadata_len ((name, value) ∷ m) = property_len (c_str name) (c_str value) + app_metadata_len m

unfoldable pub basic_properties_len : Options → ℕ
unfolding app_metadata_len
basic_properties_len o =
    property_len socket_type_name (socket_type_string o.socket_type)
    + app_metadata_len o.app_metadata
    + (if is_router o.socket_type then property_len identity_name o.routing_id else 0)

unfoldable pub make_command_with_basic_properties : Options → Bytes → Option Bytes
unfolding add_basic_properties basic_properties_len
make_command_with_basic_properties o command =
    elim (add_basic_properties o (basic_properties_len o)) [
      | none ↦ none
      | some bytes ↦ some (command ++ bytes)
    ]

unfoldable pub check_socket_type : SocketType → Bytes → Bool
check_socket_type router peer = true
check_socket_type pub_socket peer =
    bytes_beq peer (socket_type_string sub) || bytes_beq peer (socket_type_string xsub)
check_socket_type sub peer =
    bytes_beq peer (socket_type_string pub_socket) || bytes_beq peer (socket_type_string xpub)
check_socket_type xpub peer =
    bytes_beq peer (socket_type_string sub) || bytes_beq peer (socket_type_string xsub)
check_socket_type xsub peer =
    bytes_beq peer (socket_type_string pub_socket) || bytes_beq peer (socket_type_string xpub)
check_socket_type pair peer = false
