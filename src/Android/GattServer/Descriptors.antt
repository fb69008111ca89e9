-- ===== src/Android/GattServer/Descriptors.antt =====
-- android/jni/gatt_server.go: the requests on descriptors, and with them the subscriptions.
use gatt.Prelude.{
  ℕ, ◌+◌, ◌*◌, List, [], ◌∷◌, ◌++◌, Bool, false, not, Option, none, some, length, get_elem?,
  bytes_equal, bit_and, ◌==◌, if◌then◌else◌,
}
use gatt.Profile.{Characteristic}
use gatt.Prelude.{update}
use gatt.Android.Maps.{Text, find, store, erase}
use gatt.Android.GattServer.{
  ServerNotifier, GattServer, stop, notifier_key, gatt_server_success, cccd_uuid,
}
use gatt.Android.GattServer.Callback.{
  BluetoothDevice, JavaDescriptor, Effect, serve_notify, response, respond_if, desc_uuid_string,
  get_char_uuid_from_descriptor,
}
use gatt.Android.GattServer.Characteristics.{find_central, addr_of}

-- The value of the CCCD of a characteristic for a central.
unfoldable pub cccd_value : GattServer → Text → List ℕ
unfolding find
cccd_value gs key = elim (find gs.notifiers key) [
  | none ↦ 0 ∷ 0 ∷ []
  | some p ↦ elim (get_elem? gs.made_notifiers p) [
    | none ↦ 0 ∷ 0 ∷ []
    | some n ↦ if n.done then 0 ∷ 0 ∷ [] else if n.confirm then 2 ∷ 0 ∷ [] else 1 ∷ 0 ∷ []
  ]
]

unfoldable pub read_cccd :
    GattServer → Option BluetoothDevice → ℕ → ℕ → Text → GattServer × List Effect
unfolding find_central cccd_value addr_of notifier_key
read_cccd gs device request_id offset uuid =
    let found = find_central gs device in
    let key = notifier_key uuid (addr_of found.0 found.1) in
    (found.0, response device request_id gatt_server_success offset (cccd_value found.0 key))

-- handleDescriptorReadRequest
unfoldable pub handle_descriptor_read_request :
    GattServer → Option BluetoothDevice → ℕ → ℕ → Option JavaDescriptor → GattServer × List Effect
unfolding read_cccd desc_uuid_string get_char_uuid_from_descriptor
handle_descriptor_read_request gs device request_id offset desc =
    if bytes_equal (desc_uuid_string desc) cccd_uuid
    then read_cccd gs device request_id offset (get_char_uuid_from_descriptor desc)
    else (gs, response device request_id gatt_server_success offset [])

-- uint16(value[0]) | uint16(value[1])<<8, of bytes.
unfoldable pub decode_cccd : List ℕ → ℕ
decode_cccd [] = 0
decode_cccd (a ∷ []) = 0
decode_cccd (a ∷ b ∷ rest) = a + b * 256

unfoldable pub stop_existing : List ServerNotifier → Option ℕ → List ServerNotifier
unfolding update stop
stop_existing made none = made
stop_existing made (some p) = update made p stop

-- The first case: the notifier that is there is stopped and taken out.
unfoldable pub disable_cccd : GattServer → Text → GattServer
unfolding find erase update stop
disable_cccd gs key = elim (find gs.notifiers key) [
  | none ↦ gs
  | some p ↦ record gs {
    notifiers = erase gs.notifiers key;
    made_notifiers = update gs.made_notifiers p stop;
  }
]

-- The second: it is stopped and replaced by a new one.
unfoldable pub enable_cccd : GattServer → Text → Text → ℕ → Bool → GattServer
unfolding find store stop_existing
enable_cccd gs key uuid c confirm = record gs {
  notifiers = store gs.notifiers key (length gs.made_notifiers);
  made_notifiers =
      stop_existing gs.made_notifiers (find gs.notifiers key)
      ++ (record {
        c = c;
        char = uuid;
        char_obj = find gs.char_obj_by_uuid uuid;
        confirm = confirm;
        done = false;
      }
          ∷ []);
}

abbrev start_handler : Characteristic → ℕ → List Effect
start_handler char p = elim char.notify_handler [ none ↦ [] | some nh ↦ serve_notify nh p ∷ [] ]

-- handleCCCDWrite, for the central at position `c`.
unfoldable pub handle_cccd_write : GattServer → ℕ → Text → List ℕ → GattServer × List Effect
unfolding find disable_cccd enable_cccd decode_cccd addr_of notifier_key
handle_cccd_write gs c uuid value = elim (find gs.char_by_uuid uuid) [
  | none ↦ (gs, [])
  | some char ↦
      let cccd = decode_cccd value in
      let key = notifier_key uuid (addr_of gs c) in
      if cccd == 0 then (disable_cccd gs key, []) else (
        enable_cccd gs key uuid c (not (bit_and cccd 2 == 0)),
        start_handler char (length gs.made_notifiers),
      )
]

unfoldable pub write_cccd :
    GattServer → Option BluetoothDevice → Text → List ℕ → List Effect → GattServer × List Effect
unfolding find_central handle_cccd_write
write_cccd gs device uuid value answer =
    let found = find_central gs device in
    let done = handle_cccd_write found.0 found.1 uuid value in (done.0, done.1 ++ answer)

-- handleDescriptorWriteRequest
unfoldable pub handle_descriptor_write_request :
    GattServer
    → Option BluetoothDevice
    → ℕ
    → Option JavaDescriptor
    → ℕ
    → List ℕ
    → GattServer × List Effect
unfolding write_cccd desc_uuid_string get_char_uuid_from_descriptor
handle_descriptor_write_request gs device request_id desc needed value =
    let answer = respond_if needed (response device request_id gatt_server_success 0 []) in
    if bytes_equal (desc_uuid_string desc) cccd_uuid
    then write_cccd gs device (get_char_uuid_from_descriptor desc) value answer
    else (gs, answer)
