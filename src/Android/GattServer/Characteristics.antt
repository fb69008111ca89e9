-- ===== src/Android/GattServer/Characteristics.antt =====
-- android/jni/gatt_server.go: findCentral, and the requests that read and write characteristics.
use gatt.Prelude.{
  ℕ, ◌-◌, List, [], ◌∷◌, ◌++◌, Option, none, some, length, get_elem?, drop, ◌==◌, ltb,
  if◌then◌else◌,
}
use gatt.Profile.{Characteristic, ReadHandler}
use gatt.Central.Read.{write_calls}
use gatt.Android.Maps.{Text, find, store}
use gatt.Android.GattServer.{close_central, Central, GattServer, new_central, gatt_server_success}
use gatt.Android.GattServer.Callback.{
  BluetoothDevice, JavaCharacteristic, Effect, serve_write, response, respond_if,
  get_device_address, char_uuid_string,
}

-- A reference to a null device counts as released.
unfoldable pub temporary_central : Option BluetoothDevice → Text → Central
unfolding new_central close_central
temporary_central none addr = close_central (new_central 0 addr)
temporary_central (some d) addr = new_central d.obj addr

unfoldable pub find_central_at : GattServer → Option BluetoothDevice → Text → GattServer × ℕ
unfolding find store temporary_central
find_central_at gs device addr = elim (find gs.centrals addr) [
  | some c ↦ (gs, c)
  | none ↦ (
    record gs {
      centrals = store gs.centrals addr (length gs.made_centrals);
      made_centrals = gs.made_centrals ++ (temporary_central device addr ∷ []);
    },
    length gs.made_centrals,
  )
]

-- findCentral
unfoldable pub find_central : GattServer → Option BluetoothDevice → GattServer × ℕ
unfolding find_central_at get_device_address
find_central gs device = find_central_at gs device (get_device_address device)

-- `central.MTU()`, `central.addr` at a position.
unfoldable pub mtu_of : GattServer → ℕ → ℕ
mtu_of gs c = elim (get_elem? gs.made_centrals c) [ none ↦ 0 | some k ↦ k.mtu ]

unfoldable pub addr_of : GattServer → ℕ → Text
addr_of gs c = elim (get_elem? gs.made_centrals c) [ none ↦ [] | some k ↦ k.addr ]

-- What a read handler writes within its capacity, from the offset on.
unfoldable pub served : ReadHandler → ℕ → ℕ → List ℕ
unfolding write_calls
served f capacity offset =
    let content =
      (write_calls (record { capacity = capacity; buf = [] }) (f capacity offset)).buf in
    if ltb offset (length content) then drop offset content else []

-- handleCharacteristicReadRequest, for the characteristic if the server has it.
unfoldable pub read_characteristic :
    GattServer → Option BluetoothDevice → ℕ → ℕ → Option Characteristic → GattServer × List Effect
unfolding find_central served mtu_of
read_characteristic gs device request_id offset none =
    (gs, response device request_id gatt_server_success offset [])
read_characteristic gs device request_id offset (some c) =
    let found = find_central gs device in
    elim c.read_handler [
      | none ↦ (found.0, response device request_id gatt_server_success offset [])
      | some f ↦ (
        found.0,
        response device request_id gatt_server_success offset
            (served f (mtu_of found.0 found.1 - 1) offset),
      )
    ]

unfoldable pub handle_characteristic_read_request :
    GattServer
    → Option BluetoothDevice
    → ℕ
    → ℕ
    → Option JavaCharacteristic
    → GattServer × List Effect
unfolding find read_characteristic char_uuid_string
handle_characteristic_read_request gs device request_id offset char =
    let uuid = char_uuid_string char in
    if length uuid == 0
    then (gs, response device request_id gatt_server_success offset [])
    else read_characteristic gs device request_id offset (find gs.char_by_uuid uuid)

unfoldable pub write_characteristic :
    GattServer
    → Option BluetoothDevice
    → ℕ
    → ℕ
    → ℕ
    → Text
    → List ℕ
    → Option Characteristic
    → GattServer × List Effect
unfolding find_central
write_characteristic gs device request_id needed offset uuid value none =
    (gs, respond_if needed (response device request_id gatt_server_success offset []))
write_characteristic gs device request_id needed offset uuid value (some c) =
    let found = find_central gs device in
    elim c.write_handler [
      | none ↦
          (found.0, respond_if needed (response device request_id gatt_server_success offset []))
      | some f ↦ (
        found.0,
        serve_write uuid value ∷ respond_if needed (response device request_id (f value) offset []),
      )
    ]

unfoldable pub handle_characteristic_write_request :
    GattServer
    → Option BluetoothDevice
    → ℕ
    → Option JavaCharacteristic
    → ℕ
    → ℕ
    → List ℕ
    → GattServer × List Effect
unfolding find write_characteristic char_uuid_string
handle_characteristic_write_request gs device request_id char needed offset value =
    let uuid = char_uuid_string char in
    if length uuid == 0
    then (gs, respond_if needed (response device request_id gatt_server_success offset []))
    else write_characteristic gs device request_id needed offset uuid value
        (find gs.char_by_uuid uuid)
