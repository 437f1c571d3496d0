-- ===== src/Router/Settings.antt =====
-- The options of src/core/router.cpp and of `routing_socket_base_t` in src/core/socket_base.cpp. EINVAL is
-- `none`.
use serverlink.Prelude.{
  ℕ, ◌==◌, leb, Bool, true, false, not, ◌&&◌, if◌then◌else◌, Option, none, some, Bytes, length,
}
use serverlink.Prelude.Int.{to_ℕ}
use serverlink.Options.{is_int, int_of, int_bytes, is_not_negative, bool_int}
use serverlink.Router.{Router}

pub data RouterOption : Type 0 where
  router_raw : RouterOption
  router_mandatory : RouterOption
  probe_router : RouterOption
  router_handover : RouterOption
  router_notify : RouterOption
  connect_routing_id : RouterOption
  other : RouterOption

abbrev pub set_raw : Bool → Router → Router
set_raw true r = record r { raw_socket = true; recv_routing_id = false; raw_option = true }
set_raw false r = record r { raw_socket = false }

-- The options that are switches, with the value that is not negative.
abbrev pub set_value : RouterOption → ℕ → Router → Option Router
set_value router_raw v r = some (set_raw (not (v == 0)) r)
set_value router_mandatory v r = some (record r { mandatory = not (v == 0) })
set_value probe_router v r = some (record r { probe_router = not (v == 0) })
set_value router_handover v r = some (record r { handover = not (v == 0) })
set_value router_notify v r = if leb v 3 then some (record r { router_notify = v }) else none
set_value connect_routing_id v r = none
set_value other v r = none

abbrev pub set_connect_routing_id : Bytes → Router → Option Router
set_connect_routing_id b r =
    if length b == 0 then none else some (record r { connect_routing_id = b })

abbrev pub is_chosen : RouterOption → Bool
is_chosen connect_routing_id = true
is_chosen _ = false

unfoldable pub xsetsockopt : RouterOption → Bytes → Router → Option Router
xsetsockopt o b r =
    if is_chosen o
    then set_connect_routing_id b r
    else if is_int b && is_not_negative (int_of b)
    then set_value o (to_ℕ (int_of b)) r
    else none

abbrev pub get_value : RouterOption → Router → Option Bool
get_value router_raw r = some r.raw_socket
get_value router_mandatory r = some r.mandatory
get_value probe_router r = some r.probe_router
get_value router_handover r = some r.handover
get_value _ r = none

unfoldable pub xgetsockopt : RouterOption → ℕ → Router → Option Bytes
xgetsockopt o len r = elim (get_value o r) [
  | none ↦ none
  | some v ↦ if len == 4 then some (int_bytes (bool_int v)) else none
]
