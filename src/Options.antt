-- ===== src/Options.antt =====
-- src/core/options.cpp, src/util/constants.hpp: the options of a socket. What the caller passes is a byte
-- string, an `int` four bytes of it, the lowest first; EINVAL is `none`. A null pointer is the empty string.
mod Codes
mod Fields
pub mod Settings
pub mod Values
use serverlink.Prelude.{
  ℕ, ◌+◌, ◌-◌, ◌*◌, ◌/◌, ◌%◌, ◌^◌, ◌==◌, ltb, leb, Bool, true, false, not, ◌&&◌, ◌||◌,
  if◌then◌else◌, Option, none, some, List, [], ◌∷◌, ◌++◌, Bytes, length, get_or, replicate, take,
  drop, bytes_beq, bytes_eq, find, insert,
}
use serverlink.Prelude.Int.{ℤ, pos, negsuc, negate, is_pos, to_ℕ}

-- The options that are kept as one `int`.
pub data IntOption : Type 0 where
  sndhwm : IntOption
  rcvhwm : IntOption
  sndbuf : IntOption
  rcvbuf : IntOption
  tos : IntOption
  linger : IntOption
  connect_timeout : IntOption
  tcp_maxrt : IntOption
  reconnect_stop : IntOption
  reconnect_ivl : IntOption
  reconnect_ivl_max : IntOption
  backlog : IntOption
  rcvtimeo : IntOption
  sndtimeo : IntOption
  tcp_keepalive : IntOption
  tcp_keepalive_cnt : IntOption
  tcp_keepalive_idle : IntOption
  tcp_keepalive_intvl : IntOption
  immediate : IntOption
  handshake_ivl : IntOption
  heartbeat_ivl : IntOption
  heartbeat_timeout : IntOption
  use_fd : IntOption
  in_batch_size : IntOption
  out_batch_size : IntOption
  busy_poll : IntOption
  priority : IntOption
  router_notify : IntOption

-- The values of the constants.
unfoldable pub code : IntOption → ℕ
code sndhwm = 23
code rcvhwm = 24
code sndbuf = 11
code rcvbuf = 12
code tos = 57
code linger = 17
code connect_timeout = 79
code tcp_maxrt = 80
code reconnect_stop = 81
code reconnect_ivl = 18
code reconnect_ivl_max = 21
code backlog = 19
code rcvtimeo = 27
code sndtimeo = 28
code tcp_keepalive = 34
code tcp_keepalive_cnt = 35
code tcp_keepalive_idle = 36
code tcp_keepalive_intvl = 37
code immediate = 39
code handshake_ivl = 66
code heartbeat_ivl = 75
code heartbeat_timeout = 77
code use_fd = 89
code in_batch_size = 101
code out_batch_size = 102
code busy_poll = 103
code priority = 112
code router_notify = 97

abbrev pub is_not_negative : ℤ → Bool
is_not_negative (pos n) = true
is_not_negative (negsuc n) = false

abbrev pub is_at_least_minus_one : ℤ → Bool
is_at_least_minus_one (pos n) = true
is_at_least_minus_one (negsuc n) = n == 0

abbrev pub is_bit : ℤ → Bool
is_bit (pos n) = leb n 1
is_bit (negsuc n) = false

abbrev pub is_keepalive : ℤ → Bool
is_keepalive (pos n) = leb n 1
is_keepalive (negsuc n) = n == 0

-- The values that an option takes.
unfoldable pub is_allowed : IntOption → ℤ → Bool
is_allowed sndhwm v = is_not_negative v
is_allowed rcvhwm v = is_not_negative v
is_allowed sndbuf v = is_at_least_minus_one v
is_allowed rcvbuf v = is_at_least_minus_one v
is_allowed tos v = is_not_negative v
is_allowed linger v = is_at_least_minus_one v
is_allowed connect_timeout v = is_not_negative v
is_allowed tcp_maxrt v = is_not_negative v
is_allowed reconnect_stop v = true
is_allowed reconnect_ivl v = is_at_least_minus_one v
is_allowed reconnect_ivl_max v = is_not_negative v
is_allowed backlog v = is_not_negative v
is_allowed rcvtimeo v = is_at_least_minus_one v
is_allowed sndtimeo v = is_at_least_minus_one v
is_allowed tcp_keepalive v = is_keepalive v
is_allowed tcp_keepalive_cnt v = is_at_least_minus_one v
is_allowed tcp_keepalive_idle v = is_at_least_minus_one v
is_allowed tcp_keepalive_intvl v = is_at_least_minus_one v
is_allowed immediate v = is_bit v
is_allowed handshake_ivl v = is_not_negative v
is_allowed heartbeat_ivl v = is_not_negative v
is_allowed heartbeat_timeout v = is_not_negative v
is_allowed use_fd v = is_at_least_minus_one v
is_allowed in_batch_size v = is_pos v
is_allowed out_batch_size v = is_pos v
is_allowed busy_poll v = true
is_allowed priority v = is_not_negative v
is_allowed router_notify v = true

unfoldable pub default_value : IntOption → ℤ
default_value sndhwm = pos 1000
default_value rcvhwm = pos 1000
default_value sndbuf = negsuc 0
default_value rcvbuf = negsuc 0
default_value tos = pos 0
default_value linger = negsuc 0
default_value connect_timeout = pos 0
default_value tcp_maxrt = pos 0
default_value reconnect_stop = pos 0
default_value reconnect_ivl = pos 100
default_value reconnect_ivl_max = pos 0
default_value backlog = pos 100
default_value rcvtimeo = negsuc 0
default_value sndtimeo = negsuc 0
default_value tcp_keepalive = negsuc 0
default_value tcp_keepalive_cnt = negsuc 0
default_value tcp_keepalive_idle = negsuc 0
default_value tcp_keepalive_intvl = negsuc 0
default_value immediate = pos 0
default_value handshake_ivl = pos 30000
default_value heartbeat_ivl = pos 0
default_value heartbeat_timeout = negsuc 0
default_value use_fd = negsuc 0
default_value in_batch_size = pos 8192
default_value out_batch_size = pos 8192
default_value busy_poll = pos 0
default_value priority = pos 0
default_value router_notify = pos 0

-- The other options that are set by code. `other` stands for every other code.
pub data SocketOption : Type 0 where
  int_option : IntOption → SocketOption
  affinity : SocketOption
  routing_id : SocketOption
  maxmsgsize : SocketOption
  ipv6 : SocketOption
  heartbeat_ttl : SocketOption
  bindtodevice : SocketOption
  loopback_fastpath : SocketOption
  metadata : SocketOption
  hello_msg : SocketOption
  disconnect_msg : SocketOption
  hiccup_msg : SocketOption
  socket_type : SocketOption
  other : SocketOption

-- `ints` are the fields of type `int`; the fields of eight bytes are kept as their bytes, and the
-- heartbeat's time to live is kept in tenths of a second.
pub record Options : Type 0 where
  pub ints : IntOption → ℤ
  pub affinity_bytes : Bytes
  pub maxmsgsize_bytes : Bytes
  pub identity : Bytes
  pub type : ℤ
  pub has_ipv6 : Bool
  pub ttl : ℕ
  pub bound_device : Bytes
  pub fastpath : Bool
  pub app_metadata : List (Bytes × Bytes)
  pub hello : Bytes
  pub disconnect : Bytes
  pub hiccup : Bytes

unfoldable pub new_options : Options
new_options = record {
  ints = default_value;
  affinity_bytes = replicate 8 0;
  maxmsgsize_bytes = replicate 8 255;
  identity = [];
  type = negsuc 0;
  has_ipv6 = false;
  ttl = 0;
  bound_device = [];
  fastpath = false;
  app_metadata = [];
  hello = [];
  disconnect = [];
  hiccup = [];
}

abbrev pub is_int : Bytes → Bool
is_int b = length b == 4

unfoldable pub word : Bytes → ℕ
word b = get_or b 0 0 + get_or b 1 0 * 2 ^ 8 + get_or b 2 0 * 2 ^ 16 + get_or b 3 0 * 2 ^ 24

unfoldable pub to_int : ℕ → ℤ
to_int w = if ltb w (2 ^ 31) then pos w else negate (2 ^ 32 - w)

-- The `int` that the bytes are, 0 for another length.
unfoldable pub int_of : Bytes → ℤ
int_of b = if is_int b then to_int (word b) else pos 0

unfoldable pub from_int : ℤ → ℕ
from_int (pos n) = n
from_int (negsuc n) = 2 ^ 32 - 1 - n

unfoldable pub int_bytes : ℤ → Bytes
int_bytes v =
    let w = from_int v in w % 256 ∷ w / 2 ^ 8 % 256 ∷ w / 2 ^ 16 % 256 ∷ w / 2 ^ 24 % 256 ∷ []

abbrev pub set_int : IntOption → ℤ → Options → Options
set_int o v opts = record opts { ints = λ p. if code p == code o then v else opts.ints p }

unfoldable pub set_int_option : IntOption → Bytes → Options → Option Options
set_int_option o b opts =
    if is_int b && is_allowed o (int_of b) then some (set_int o (int_of b) opts) else none

abbrev pub set_ttl : Bool → ℤ → Options → Option Options
set_ttl int (pos n) opts =
    if int && leb (n / 100) 65535 then some (record opts { ttl = n / 100 }) else none
set_ttl int (negsuc n) opts =
    if int && ((n + 1) / 100 == 0) then some (record opts { ttl = 0 }) else none

-- `value / 100` rounds towards zero, and is taken before the length is looked at.
unfoldable pub set_heartbeat_ttl : Bytes → Options → Option Options
set_heartbeat_ttl b opts = set_ttl (is_int b) (int_of b) opts

-- `s.find (':')`
abbrev pub find_colon : Bytes → Option ℕ
find_colon [] = none
find_colon (c ∷ cs) =
    if c == b':' then some 0 else elim (find_colon cs) [ none ↦ none | some i ↦ some (i + 1) ]

-- A key that is there already keeps its value.
abbrev pub insert_new : Bytes → Bytes → Option Bytes → Options → Options
insert_new key val none opts = record opts { app_metadata = insert key val opts.app_metadata }
insert_new key val (some v) opts = opts

abbrev pub add_metadata : Bytes → Bytes → Options → Options
add_metadata key val opts = insert_new key val (find key opts.app_metadata) opts

abbrev pub set_property : Bytes → ℕ → Options → Option Options
set_property s i opts =
    if (i == 0) || (i == length s - 1)
    then none
    else if bytes_beq (take 2 (take i s)) (b'X' ∷ b'-' ∷ []) && leb i 255
    then some (add_metadata (take i s) (drop (i + 1) s) opts)
    else none

abbrev pub set_found : Bytes → Option ℕ → Options → Option Options
set_found s none opts = none
set_found s (some i) opts = set_property s i opts

unfoldable pub set_metadata : Bytes → Options → Option Options
set_metadata s opts = if (length s == 0) || is_int s then none else set_found s (find_colon s) opts

abbrev pub bool_of : Bool → ℤ → Option Bool
bool_of strict (pos n) = if strict && ltb 1 n then none else some (not (n == 0))
bool_of strict (negsuc n) = if strict then none else some true

-- The strict form takes 0 and 1 only.
unfoldable pub set_bool : Bool → Bytes → Option Bool
set_bool strict b = if is_int b then bool_of strict (int_of b) else none

abbrev pub set_switch : (Bool → Options) → Option Bool → Option Options
set_switch f none = none
set_switch f (some v) = some (f v)

-- The device's name, of at most IFNAMSIZ bytes.
abbrev pub device_len : ℕ
device_len = 16

unfoldable pub setsockopt : SocketOption → Bytes → Options → Option Options
setsockopt (int_option o) b opts = set_int_option o b opts
setsockopt affinity b opts =
    if length b == 8 then some (record opts { affinity_bytes = b }) else none
setsockopt routing_id b opts =
    if ltb 0 (length b) && leb (length b) 255 then some (record opts { identity = b }) else none
setsockopt maxmsgsize b opts =
    if length b == 8 then some (record opts { maxmsgsize_bytes = b }) else none
setsockopt ipv6 b opts = set_switch (λ v. record opts { has_ipv6 = v }) (set_bool true b)
setsockopt heartbeat_ttl b opts = set_heartbeat_ttl b opts
setsockopt bindtodevice b opts =
    if leb (length b) device_len then some (record opts { bound_device = b }) else none
setsockopt loopback_fastpath b opts =
    set_switch (λ v. record opts { fastpath = v }) (set_bool false b)
setsockopt metadata b opts = set_metadata b opts
setsockopt hello_msg b opts = some (record opts { hello = b })
setsockopt disconnect_msg b opts = some (record opts { disconnect = b })
setsockopt hiccup_msg b opts = some (record opts { hiccup = b })
setsockopt socket_type b opts = none
setsockopt other b opts = none

-- An `int`, for a buffer of its size.
abbrev pub give_int : ℕ → ℤ → Option Bytes
give_int len v = if len == 4 then some (int_bytes v) else none

-- `do_getsockopt`: the value and its length, for a buffer that is large enough. What is behind the value in
-- the buffer is set to 0, and is left out here.
abbrev pub give : ℕ → Bytes → Option Bytes
give len v = if ltb len (length v) then none else some v

abbrev pub bool_int : Bool → ℤ
bool_int true = pos 1
bool_int false = pos 0

-- What is written to a buffer of `len` bytes.
unfoldable pub getsockopt : SocketOption → ℕ → Options → Option Bytes
getsockopt (int_option o) len opts = give_int len (opts.ints o)
getsockopt affinity len opts = if len == 8 then some opts.affinity_bytes else none
getsockopt routing_id len opts = give len opts.identity
getsockopt maxmsgsize len opts = if len == 8 then some opts.maxmsgsize_bytes else none
getsockopt ipv6 len opts = give_int len (bool_int opts.has_ipv6)
getsockopt heartbeat_ttl len opts = give_int len (pos (opts.ttl * 100))
getsockopt bindtodevice len opts = give len (opts.bound_device ++ 0 ∷ [])
getsockopt loopback_fastpath len opts = give_int len (bool_int opts.fastpath)
getsockopt metadata len opts = none
getsockopt hello_msg len opts = none
getsockopt disconnect_msg len opts = none
getsockopt hiccup_msg len opts = none
getsockopt socket_type len opts = give_int len opts.type
getsockopt other len opts = none
