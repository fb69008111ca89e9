-- ===== src/Android/GattServer/Subscriptions.antt =====
-- The server's subscriptions are a function from a characteristic and a central that connections,
-- disconnections and writes of configuration descriptors change.
pub mod Unchanged
pub mod Handlers
use gatt.Prelude.{
  ℕ, zero, suc, ◌+◌, ◌≡◌, refl, sym, ap, subst, ◌∙◌, List, [], ◌∷◌, ◌++◌, Bool, true, false, not,
  ◌&&◌, Option, none, some, get_elem?, length, bytes_equal, if◌then◌else◌, ◌==◌, bit_and,
  Bool-cases, Option-cases, inl, inr, All,
}
use gatt.Profile.{Characteristic}
use gatt.Prelude.{update}
use gatt.Android.Maps.{Text, find}
use gatt.Android.GattServer.{
  GattServer, stop_for_address, cccd_uuid, notifier_key, addr_at, set_mtu, disconnect_central,
  remember_connected_central, new_central, gatt_server_success,
}
use gatt.Android.GattServer.Callback.{
  Callback, connection_state_change, characteristic_read_request, characteristic_write_request,
  descriptor_read_request, descriptor_write_request, execute_write, notification_sent, mtu_changed,
  other, BluetoothDevice, JavaCharacteristic, JavaDescriptor, CentralHandlers, state_connected,
  state_disconnected, get_device_address, desc_uuid_string, get_char_uuid_from_descriptor,
  char_uuid_string, response, Effect, respond_if,
}
use gatt.Android.GattServer.Characteristics.{
  find_central, addr_of, read_characteristic, write_characteristic,
  handle_characteristic_read_request, handle_characteristic_write_request,
}
use gatt.Android.GattServer.Descriptors.{
  decode_cccd, enable_cccd, disable_cccd, handle_cccd_write, write_cccd, read_cccd,
  handle_descriptor_read_request, handle_descriptor_write_request,
}
use gatt.Android.GattServer.Dispatch.{
  connected_state, connection_state, handle_server_connection_state_change,
  handle_server_mtu_changed, handle_gatt_server_callback, callbacks,
}
use gatt.Android.GattServer.Connected.{IsAddress}
use gatt.Android.GattServer.Simulation.{
  Subscriptions, forget, put, Simulates, Found, find_central-Found, address-of,
}
use gatt.Android.GattServer.Simulation.Connections.{
  disconnect-Simulates, connect-Simulates, set_mtu-Simulates,
}
use gatt.Android.GattServer.Simulation.Cccd.{enable_cccd-Simulates, disable_cccd-Simulates}

abbrev pub HasAddress : Option BluetoothDevice → Type 0
HasAddress none = ⊥
HasAddress (some d) = (a : Text) × (d.address ≡ some a) × IsAddress a

-- Android passes a device with an address to each callback.
abbrev pub WellFormed : Callback → Type 0
WellFormed (connection_state_change d s new) = HasAddress d
WellFormed (characteristic_read_request d i o c) = HasAddress d
WellFormed (characteristic_write_request d i c p needed o v) = HasAddress d
WellFormed (descriptor_read_request d i o desc) = HasAddress d
WellFormed (descriptor_write_request d i desc p needed o v) = HasAddress d
WellFormed (execute_write d i e) = HasAddress d
WellFormed (notification_sent d s) = HasAddress d
WellFormed (mtu_changed d mtu) = HasAddress d
WellFormed other = Unit

unfoldable pub has_char : List (Text × Characteristic) → Text → Bool
has_char chars u = elim (find chars u) [ none ↦ false | some c ↦ true ]

-- What a value written to a configuration descriptor asks for.
unfoldable pub cccd_mode : List ℕ → Option Bool
unfolding decode_cccd
cccd_mode v = if decode_cccd v == 0 then none else some (not (bit_and (decode_cccd v) 2 == 0))

unfoldable pub subscribe : List (Text × Characteristic) → Subscriptions → Callback → Subscriptions
unfolding get_device_address has_char cccd_mode desc_uuid_string get_char_uuid_from_descriptor
subscribe chars s (connection_state_change d st new) =
    if new == state_connected
    then forget s (get_device_address d)
    else if new == state_disconnected
    then forget s (get_device_address d)
    else s
subscribe chars s (descriptor_write_request d i desc p needed o v) =
    if bytes_equal (desc_uuid_string desc) cccd_uuid
    then (if has_char chars (get_char_uuid_from_descriptor desc)
        then put s (get_char_uuid_from_descriptor desc) (get_device_address d) (cccd_mode v)
        else s)
    else s
subscribe chars s (characteristic_read_request d i o c) = s
subscribe chars s (characteristic_write_request d i c p needed o v) = s
subscribe chars s (descriptor_read_request d i o desc) = s
subscribe chars s (execute_write d i e) = s
subscribe chars s (notification_sent d st) = s
subscribe chars s (mtu_changed d mtu) = s
subscribe chars s other = s

unfoldable pub subscribe_all :
    List (Text × Characteristic) → Subscriptions → List Callback → Subscriptions
unfolding subscribe
subscribe_all chars s [] = s
subscribe_all chars s (c ∷ cs) = subscribe_all chars (subscribe chars s c) cs

-- The state after a handler.
pub record Follows (chars : List (Text × Characteristic)) (s : Subscriptions) (gs : GattServer)
    : Type 0 where
  pub simulates : Simulates gs s
  pub same_chars : gs.char_by_uuid ≡ chars
