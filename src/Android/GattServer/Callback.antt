-- ===== src/Android/GattServer/Callback.antt =====
-- android/jni/gatt_server.go: the callbacks of BluetoothGattServerCallback, what is read from their
-- arguments, and the effects that they have.
use gatt.Prelude.{ℕ, List, [], ◌∷◌, Bool, Option, none, some, ◌==◌, if◌then◌else◌}
use gatt.Profile.{NotifyHandler}
use gatt.Android.Maps.{Text}

-- BluetoothProfile's states.
abbrev pub state_disconnected : ℕ
state_disconnected = 0

abbrev pub state_connected : ℕ
state_connected = 2

-- What Android passes. `obj` is the number that a new global reference to the device gets, `address`
-- what getAddress returns and `uuid` what getUuid().toString() does; `none` is an exception.
pub record BluetoothDevice : Type 0 where
  pub obj : ℕ
  pub address : Option Text

pub record JavaCharacteristic : Type 0 where
  pub uuid : Option Text

pub record JavaDescriptor : Type 0 where
  pub uuid : Option Text
  pub char : Option JavaCharacteristic

-- A callback with its arguments, integers unboxed; `none` is null. `other` is a callback of another
-- name or with too few arguments, and none that Android waits for; `execute_write` ends a long write.
pub data Callback : Type 0 where
  connection_state_change : (device : Option BluetoothDevice) (status new_state : ℕ) → Callback
  characteristic_read_request :
      (device : Option BluetoothDevice) (request_id offset : ℕ) (char : Option JavaCharacteristic)
      → Callback
  characteristic_write_request :
      (device : Option BluetoothDevice) (request_id : ℕ) (char : Option JavaCharacteristic)
      (prepared_write response_needed offset : ℕ) (value : List ℕ)
      → Callback
  descriptor_read_request :
      (device : Option BluetoothDevice) (request_id offset : ℕ) (desc : Option JavaDescriptor)
      → Callback
  descriptor_write_request :
      (device : Option BluetoothDevice) (request_id : ℕ) (desc : Option JavaDescriptor)
      (prepared_write response_needed offset : ℕ) (value : List ℕ)
      → Callback
  execute_write : (device : Option BluetoothDevice) (request_id execute : ℕ) → Callback
  notification_sent : (device : Option BluetoothDevice) (status : ℕ) → Callback
  mtu_changed : (device : Option BluetoothDevice) (mtu : ℕ) → Callback
  other : Callback

pub record Response : Type 0 where
  pub device : Option BluetoothDevice
  pub request_id : ℕ
  pub status : ℕ
  pub offset : ℕ
  pub value : List ℕ

-- What a callback does besides the change of state: it responds, it has the write handler of a
-- characteristic serve data, and it starts a handler with a central or a notifier at a position.
pub data Effect : Type 0 where
  respond : Response → Effect
  serve_write : Text → List ℕ → Effect
  central_connected central_disconnected : ℕ → Effect
  serve_notify : NotifyHandler → ℕ → Effect

-- Whether the device has the two handlers.
pub record CentralHandlers : Type 0 where
  pub connected : Bool
  pub disconnected : Bool

unfoldable pub get_device_address : Option BluetoothDevice → Text
get_device_address none = []
get_device_address (some d) = elim d.address [ none ↦ [] | some a ↦ a ]

-- getObjectUUIDString
text_or_empty : Option Text → Text
text_or_empty none = []
text_or_empty (some s) = s

unfoldable pub char_uuid_string : Option JavaCharacteristic → Text
unfolding text_or_empty
char_uuid_string none = []
char_uuid_string (some c) = text_or_empty c.uuid

unfoldable pub desc_uuid_string : Option JavaDescriptor → Text
unfolding text_or_empty
desc_uuid_string none = []
desc_uuid_string (some d) = text_or_empty d.uuid

unfoldable pub get_char_uuid_from_descriptor : Option JavaDescriptor → Text
unfolding char_uuid_string
get_char_uuid_from_descriptor none = []
get_char_uuid_from_descriptor (some d) = char_uuid_string d.char

abbrev pub response : Option BluetoothDevice → ℕ → ℕ → ℕ → List ℕ → List Effect
response device request_id status offset value =
    respond (record {
      device = device;
      request_id = request_id;
      status = status;
      offset = offset;
      value = value;
    })
    ∷ []

-- The response, if it is needed.
abbrev pub respond_if : ℕ → List Effect → List Effect
respond_if response_needed effects = if response_needed == 0 then [] else effects
