-- ===== src/Monitor/Dispatcher.antt =====
-- src/monitor/event_dispatcher.cpp: the callback of the application, and the events that it is given.
use serverlink.Prelude.{
  ℕ, ◌/◌, ◌%◌, ◌^◌, ◌==◌, Bool, false, ◌&&◌, ◌||◌, if◌then◌else◌, List, [], ◌∷◌, Bytes,
}

pub data EventType : Type 0 where
  peer_connected_event : EventType
  peer_disconnected_event : EventType
  peer_reconnecting_event : EventType
  peer_reconnected_event : EventType
  handshake_failed_event : EventType

unfoldable pub number : EventType → ℕ
number peer_connected_event = 1
number peer_disconnected_event = 2
number peer_reconnecting_event = 3
number peer_reconnected_event = 4
number handshake_failed_event = 5

pub record Event : Type 0 where
  pub type : EventType
  pub routing_id : Bytes
  pub time : ℕ

-- Whether a callback is registered, its mask (an `int`, by its bits), and the events that it was
-- called with, the latest first.
pub record Dispatcher : Type 0 where
  pub registered : Bool
  pub event_mask : ℕ
  pub calls : List Event

unfoldable pub new_dispatcher : Dispatcher
new_dispatcher = record { registered = false; event_mask = 0; calls = [] }

unfoldable pub register_callback : Bool → ℕ → Dispatcher → Dispatcher
register_callback callback mask d = record d { registered = callback; event_mask = mask }

unfoldable pub unregister_callback : Dispatcher → Dispatcher
unregister_callback d = record d { registered = false; event_mask = 0 }

unfoldable pub is_event_enabled : EventType → Dispatcher → Bool
is_event_enabled t d = (d.event_mask == 65535) || (d.event_mask / 2 ^ number t % 2 == 1)

unfoldable pub dispatch_event : Event → Dispatcher → Dispatcher
dispatch_event e d =
    if d.registered && is_event_enabled e.type d then record d { calls = e ∷ d.calls } else d
