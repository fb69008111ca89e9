-- ===== src/Android/GattServer/Dispatch.antt =====
-- android/jni/gatt_server.go: the connections of centrals, and handleGattServerCallback.
use gatt.Prelude.{ℕ, List, [], ◌∷◌, ◌++◌, Option, none, some, length, ◌==◌, if◌then◌else◌}
use gatt.Prelude.{update}
use gatt.Android.Maps.{Text, find}
use gatt.Android.GattServer.{
  GattServer, new_central, set_mtu, remember_connected_central, disconnect_central,
}
use gatt.Android.GattServer.Callback.{
  Callback, connection_state_change, characteristic_read_request, characteristic_write_request,
  descriptor_read_request, descriptor_write_request, execute_write, notification_sent, mtu_changed,
  other, BluetoothDevice, Effect, central_connected, central_disconnected, get_device_address,
  state_connected, state_disconnected, CentralHandlers,
}
use gatt.Android.GattServer.Characteristics.{
  handle_characteristic_read_request, handle_characteristic_write_request,
}
use gatt.Android.GattServer.Descriptors.{
  handle_descriptor_read_request, handle_descriptor_write_request,
}

unfoldable pub connected_state : CentralHandlers → GattServer → ℕ → Text → GattServer × List Effect
unfolding new_central remember_connected_central
connected_state h gs obj addr =
    let c = length gs.made_centrals in
    let made = record gs { made_centrals = gs.made_centrals ++ (new_central obj addr ∷ []) } in
    (remember_connected_central made addr c, if h.connected then central_connected c ∷ [] else [])

unfoldable pub disconnected_effects : CentralHandlers → Option ℕ → List Effect
disconnected_effects h none = []
disconnected_effects h (some c) = if h.disconnected then central_disconnected c ∷ [] else []

unfoldable pub connection_state :
    CentralHandlers → GattServer → ℕ → ℕ → Text → GattServer × List Effect
unfolding connected_state disconnected_effects disconnect_central
connection_state h gs new_state obj addr =
    if new_state == state_connected
    then connected_state h gs obj addr
    else if new_state == state_disconnected
    then ((disconnect_central gs addr).0, disconnected_effects h (disconnect_central gs addr).1)
    else (gs, [])

-- handleServerConnectionStateChange
unfoldable pub handle_server_connection_state_change :
    CentralHandlers → GattServer → Option BluetoothDevice → ℕ → GattServer × List Effect
unfolding connected_state disconnected_effects disconnect_central
handle_server_connection_state_change h gs none new_state = (gs, [])
handle_server_connection_state_change h gs (some d) new_state = elim d.address [
  | none ↦ (gs, [])
  | some addr ↦ connection_state h gs new_state d.obj addr
]

-- handleServerMtuChanged
unfoldable pub handle_server_mtu_changed :
    GattServer → Option BluetoothDevice → ℕ → GattServer × List Effect
unfolding find update set_mtu get_device_address
handle_server_mtu_changed gs none mtu = (gs, [])
handle_server_mtu_changed gs (some d) mtu = elim (find gs.centrals (get_device_address (some d))) [
  | none ↦ (gs, [])
  | some c ↦ (record gs { made_centrals = update gs.made_centrals c (set_mtu mtu) }, [])
]

-- handleGattServerCallback. It has no case for onExecuteWrite.
unfoldable pub handle_gatt_server_callback :
    CentralHandlers → GattServer → Callback → GattServer × List Effect
unfolding handle_server_connection_state_change handle_characteristic_read_request
    handle_characteristic_write_request handle_descriptor_read_request
    handle_descriptor_write_request handle_server_mtu_changed
handle_gatt_server_callback h gs (connection_state_change d s new) =
    handle_server_connection_state_change h gs d new
handle_gatt_server_callback h gs (characteristic_read_request d i o c) =
    handle_characteristic_read_request gs d i o c
handle_gatt_server_callback h gs (characteristic_write_request d i c p needed o v) =
    handle_characteristic_write_request gs d i c needed o v
handle_gatt_server_callback h gs (descriptor_read_request d i o desc) =
    handle_descriptor_read_request gs d i o desc
handle_gatt_server_callback h gs (descriptor_write_request d i desc p needed o v) =
    handle_descriptor_write_request gs d i desc needed v
handle_gatt_server_callback h gs (execute_write d i e) = (gs, [])
handle_gatt_server_callback h gs (notification_sent d s) = (gs, [])
handle_gatt_server_callback h gs (mtu_changed d mtu) = handle_server_mtu_changed gs d mtu
handle_gatt_server_callback h gs other = (gs, [])

-- Callbacks, one after another.
unfoldable pub callbacks : CentralHandlers → GattServer → List Callback → GattServer
unfolding handle_gatt_server_callback
callbacks h gs [] = gs
callbacks h gs (c ∷ cs) = callbacks h (handle_gatt_server_callback h gs c).0 cs
