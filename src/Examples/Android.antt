-- ===== src/Examples/Android.antt =====
-- An Android GATT server with a battery level, a central that subscribes to it, and another central.
use gatt.Prelude.{
  ℕ, ◌≡◌, ◌≢◌, inl, refl, List, [], ◌∷◌, true, false, Option, none, some, arith, replicate, take,
  drop, Bool, All,
}
use gatt.Uuid.{Uuid, uuid16, uuid_contains}
use gatt.Uuid.Text.{parse_uuid}
use gatt.Android.GattServer.Opening.Texts.{expand, parse_uuid-format_unmatched}
use gatt.Profile.{Service, Characteristic, ReadHandler}
use gatt.Android.Maps.{Text, find}
use gatt.Android.GattServer.{
  Central, GattServer, ServerNotifier, NotifyCalls, central_stopped, write, cccd_uuid,
  gatt_server_success, disconnect_central, close_gatt_server, addr_at,
}
use gatt.Android.GattServer.Callback.{
  Callback, connection_state_change, characteristic_read_request, descriptor_write_request,
  BluetoothDevice, JavaCharacteristic, JavaDescriptor, CentralHandlers, response, char_uuid_string,
}
use gatt.Android.GattServer.Characteristics.{handle_characteristic_read_request}
use gatt.Android.GattServer.Descriptors.{handle_descriptor_read_request}
use gatt.Android.GattServer.Dispatch.{callbacks, connection_state, handle_gatt_server_callback}
use gatt.Android.GattServer.Opening.{format_uuid_for_java, JavaSide, open_gatt_server, opened}
use gatt.Android.GattServer.Subscribed.Modes.{cccd_bytes}
use gatt.Android.GattServer.Subscriptions.{subscribe_all, WellFormed}
use gatt.Android.GattServer.Answers.{
  answered, waiting, is_execution, handle_gatt_server_callback-answered,
}
use gatt.Android.GattServer.Answers.Reads.{
  read_capacity, handle_characteristic_read_request-value,
  handle_characteristic_read_request-offset_twice,
}
use gatt.Android.GattServer.Lifecycle.{
  read_cccd-subscribed, write-disconnected, close_gatt_server-quiet, close_gatt_server-closed,
}

abbrev level : List ℕ
level = 10 ∷ 11 ∷ 12 ∷ 13 ∷ []

-- A handler that writes all of a value, and one that serves it from the offset on.
abbrev whole : ReadHandler
whole capacity offset = level ∷ []

abbrev from_offset : ReadHandler
from_offset capacity offset = take capacity (drop offset level) ∷ []

abbrev battery_level : ReadHandler → Characteristic
battery_level f = record {
  uuid = uuid16 0x2A19;
  props = 0x12;
  secure = 0;
  cccd = none;
  descs = [];
  value = none;
  read_handler = some f;
  write_handler = none;
  notify_handler = some 1;
  h = 0;
  vh = 0;
  endh = 0;
}

abbrev battery : Service
battery = record { uuid = uuid16 0x180F; chars = battery_level whole ∷ []; h = 0; endh = 0 }

abbrev battery_long : Uuid
battery_long = record {
  b = 0xfb ∷ 0x34 ∷ 0x9b ∷ 0x5f ∷ 0x80 ∷ 0 ∷ 0 ∷ 0x80 ∷ 0 ∷ 0x10 ∷ 0 ∷ 0 ∷ 0x0F ∷ 0x18 ∷ 0 ∷ 0 ∷ [];
}

abbrev java : JavaSide
java = record { create = λ c. some 7; add_service = λ s. true }

-- "00002a19-0000-1000-8000-00805f9b34fb"
abbrev level_uuid : Text
level_uuid =
    48 ∷ 48 ∷ 48 ∷ 48 ∷ 50 ∷ 97 ∷ 49 ∷ 57 ∷ 45 ∷ 48 ∷ 48 ∷ 48 ∷ 48 ∷ 45 ∷ 49 ∷ 48 ∷ 48 ∷ 48 ∷ 45
    ∷ 56 ∷ 48 ∷ 48 ∷ 48 ∷ 45 ∷ 48 ∷ 48 ∷ 56 ∷ 48 ∷ 53 ∷ 102 ∷ 57 ∷ 98 ∷ 51 ∷ 52 ∷ 102 ∷ 98 ∷ []

abbrev server : ReadHandler → GattServer
server f = record {
  char_by_uuid = (level_uuid, battery_level f) ∷ [];
  desc_by_uuid = [];
  char_obj_by_uuid = (level_uuid, 7) ∷ [];
  centrals = [];
  notifiers = [];
  made_centrals = [];
  made_notifiers = [];
}

server_opened : open_gatt_server java true (battery ∷ []) ≡ opened (server whole)
unfolding open_gatt_server
server_opened = refl

abbrev phone : BluetoothDevice
phone = record { obj = 1; address = some (replicate 17 65) }

abbrev tablet : BluetoothDevice
tablet = record { obj = 2; address = some (replicate 17 66) }

abbrev level_char : Option JavaCharacteristic
level_char = some (record { uuid = some level_uuid })

abbrev level_cccd : Option JavaDescriptor
level_cccd = some (record { uuid = some cccd_uuid; char = level_char })

abbrev handlers : CentralHandlers
handlers = record { connected = true; disconnected = true }

abbrev session : List Callback
session =
    connection_state_change (some phone) 0 2
    ∷ connection_state_change (some tablet) 0 2
    ∷ descriptor_write_request (some phone) 1 level_cccd 0 1 0 (2 ∷ 0 ∷ [])
    ∷ descriptor_write_request (some tablet) 2 level_cccd 0 1 0 (1 ∷ 0 ∷ [])
    ∷ connection_state_change (some tablet) 0 0
    ∷ []

abbrev session_ok : All WellFormed session
session_ok = (
  (replicate 17 65, refl, refl),
  (
    (replicate 17 66, refl, refl),
    (
      (replicate 17 65, refl, refl),
      ((replicate 17 66, refl, refl), ((replicate 17 66, refl, refl), tt)),
    ),
  ),
)

read_cccd-subscribed_example :
    (handle_descriptor_read_request
      (callbacks handlers (server whole) session)
      (some phone)
      3
      0
      level_cccd).1
    ≡ response (some phone) 3 gatt_server_success 0 (2 ∷ 0 ∷ [])
unfolding subscribe_all cccd_bytes find
read_cccd-subscribed_example =
    read_cccd-subscribed java true (battery ∷ []) (server whole) handlers session server_opened
      session_ok phone 3 0 level_cccd (replicate 17 65, refl, refl) refl

abbrev phone_notifier : Bool → ServerNotifier
phone_notifier done = record {
  c = 0;
  char = level_uuid;
  char_obj = some 7;
  confirm = true;
  done = done;
}

abbrev delivered : NotifyCalls
delivered = record { set_value = true; notify = some true }

write-disconnected_example :
    write delivered
      (disconnect_central (callbacks handlers (server whole) session) (replicate 17 65)).0
      (phone_notifier true)
      level
    ≡ (central_stopped, none)
unfolding callbacks disconnect_central addr_at connection_state
write-disconnected_example =
    write-disconnected java true (battery ∷ []) (server whole) handlers session server_opened
      session_ok (replicate 17 65) delivered 0 (phone_notifier true) level refl refl refl

close_gatt_server-quiet_example :
    write delivered
      (close_gatt_server (callbacks handlers (server whole) session))
      (phone_notifier true)
      level
    ≡ (central_stopped, none)
unfolding callbacks close_gatt_server connection_state
close_gatt_server-quiet_example =
    close_gatt_server-quiet java true (battery ∷ []) (server whole) handlers session server_opened
      session_ok delivered 0 (phone_notifier true) level refl

abbrev closed_phone : Central
closed_phone = record { addr = replicate 17 65; bt_dev = none; mtu = 23 }

close_gatt_server-closed_example : closed_phone.bt_dev ≡ none
unfolding callbacks close_gatt_server connection_state
close_gatt_server-closed_example =
    close_gatt_server-closed java true (battery ∷ []) (server whole) handlers session server_opened
      session_ok 0 closed_phone refl

abbrev read_level : Callback
read_level = characteristic_read_request (some phone) 9 0 level_char

handle_gatt_server_callback-answered_example :
    answered (handle_gatt_server_callback handlers (server whole) read_level).1
    ≡ (some phone, 9) ∷ []
unfolding waiting is_execution
handle_gatt_server_callback-answered_example =
    handle_gatt_server_callback-answered handlers (server whole) read_level

handle_characteristic_read_request-value_example :
    (handle_characteristic_read_request (server whole) (some phone) 9 1 level_char).1
    ≡ response (some phone) 9 gatt_server_success 1 (11 ∷ 12 ∷ 13 ∷ [])
unfolding char_uuid_string find read_capacity
handle_characteristic_read_request-value_example =
    handle_characteristic_read_request-value (server whole) (some phone) 9 1 level_char
      (battery_level whole) whole refl refl refl level refl (omega arith)

handle_characteristic_read_request-offset_twice_example :
    (handle_characteristic_read_request (server from_offset) (some phone) 9 1 level_char).1
    ≢ response (some phone) 9 gatt_server_success 1 (11 ∷ 12 ∷ 13 ∷ [])
unfolding char_uuid_string find read_capacity
handle_characteristic_read_request-offset_twice_example =
    handle_characteristic_read_request-offset_twice (server from_offset) (some phone) 9 1 level_char
      (battery_level from_offset) from_offset refl refl refl level refl (omega arith) (omega arith)
      (omega arith)

parse_uuid-format_unmatched_example :
    (parse_uuid (format_uuid_for_java (uuid16 0x180F)) ≡ some battery_long)
    × (uuid_contains (some (uuid16 0x180F ∷ [])) battery_long ≡ false)
unfolding expand
parse_uuid-format_unmatched_example =
    parse_uuid-format_unmatched (uuid16 0x180F) (uuid16 0x180F ∷ [])
      (omega arith, (omega arith, tt)) (inl refl) (refl, tt)
