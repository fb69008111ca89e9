-- ===== src/Android/GattServer/Answers.antt =====
-- Which requests are answered.
pub mod Reads
use gatt.Prelude.{
  ℕ, suc, ◌+◌, ◌-◌, ◌≤◌, ◌<◌, ◌≡◌, ◌≢◌, ◌⊎◌, refl, sym, ap, subst, ◌∙◌, List, [], ◌∷◌, ◌++◌, Bool,
  true, false, Option, none, some, arith, length, take, drop, get_elem?, ltb, leb, lt→ltb, ltb→le,
  le→ltb, length-drop, length-take, drop-drop, drop_all, ◌==◌, bytes_equal, if◌then◌else◌,
  Bool-cases, Option-cases, inl, inr,
}
use Prim.Native.Nat.{min}
use gatt.Profile.{Characteristic, ReadHandler, NotifyHandler}
use gatt.Central.Read.{ResponseWriter, write, write_calls}
use gatt.Android.Maps.{Text, find}
use gatt.Android.GattServer.{
  GattServer, cccd_uuid, gatt_server_success, notifier_key, disconnect_central,
}
use gatt.Android.GattServer.Callback.{
  Callback, connection_state_change, characteristic_read_request, characteristic_write_request,
  descriptor_read_request, descriptor_write_request, execute_write, notification_sent, mtu_changed,
  other, BluetoothDevice, JavaCharacteristic, JavaDescriptor, CentralHandlers, Effect, respond,
  serve_write, central_connected, central_disconnected, serve_notify, Response, response,
  respond_if, char_uuid_string, desc_uuid_string, get_char_uuid_from_descriptor, get_device_address,
}
use gatt.Android.GattServer.Characteristics.{
  find_central, mtu_of, addr_of, served, read_characteristic, write_characteristic,
  handle_characteristic_read_request, handle_characteristic_write_request,
}
use gatt.Android.GattServer.Descriptors.{
  decode_cccd, handle_cccd_write, write_cccd, read_cccd, handle_descriptor_read_request,
  handle_descriptor_write_request,
}
use gatt.Android.GattServer.Dispatch.{
  connected_state, connection_state, disconnected_effects, handle_server_connection_state_change,
  handle_server_mtu_changed, handle_gatt_server_callback,
}

-- To which device and request the effects respond.
unfoldable pub answered : List Effect → List (Option BluetoothDevice × ℕ)
answered [] = []
answered (respond r ∷ es) = (r.device, r.request_id) ∷ answered es
answered (serve_write u v ∷ es) = answered es
answered (central_connected c ∷ es) = answered es
answered (central_disconnected c ∷ es) = answered es
answered (serve_notify nh p ∷ es) = answered es

-- The request of a callback that waits for a response.
unfoldable pub waiting : Callback → List (Option BluetoothDevice × ℕ)
waiting (connection_state_change d s new) = []
waiting (characteristic_read_request d i o c) = (d, i) ∷ []
waiting (characteristic_write_request d i c p needed o v) = if needed == 0 then [] else (d, i) ∷ []
waiting (descriptor_read_request d i o desc) = (d, i) ∷ []
waiting (descriptor_write_request d i desc p needed o v) = if needed == 0 then [] else (d, i) ∷ []
waiting (execute_write d i e) = (d, i) ∷ []
waiting (notification_sent d s) = []
waiting (mtu_changed d mtu) = []
waiting other = []

-- The execution of a long write.
unfoldable pub is_execution : Callback → Bool
is_execution (connection_state_change d s new) = false
is_execution (characteristic_read_request d i o c) = false
is_execution (characteristic_write_request d i c p needed o v) = false
is_execution (descriptor_read_request d i o desc) = false
is_execution (descriptor_write_request d i desc p needed o v) = false
is_execution (execute_write d i e) = true
is_execution (notification_sent d s) = false
is_execution (mtu_changed d mtu) = false
is_execution other = false

respond_if-answered :
    (d : Option BluetoothDevice) (i needed st o : ℕ) (v : List ℕ)
    → answered (respond_if needed (response d i st o v)) ≡ (if needed == 0 then [] else (d, i) ∷ [])
unfolding answered
respond_if-answered d i needed st o v = elim (Bool-cases (needed == 0)) [
  | inl e ↦ rw e refl
  | inr e ↦ rw e refl
]

module _ (h : CentralHandlers) (gs : GattServer) where
  connection-answered :
      (d : Option BluetoothDevice) (new : ℕ)
      → answered (handle_server_connection_state_change h gs d new).1 ≡ []
  unfolding answered handle_server_connection_state_change connection_state connected_state
      disconnected_effects
  connection-answered none new = refl
  connection-answered (some d) new = elim (Option-cases d.address) [
    | inl e ↦ rw e refl
    | inr (a, e) ↦ elim (Bool-cases (new == 2)) [
      | inl c ↦ rw (e, c) (if-quiet h.connected (central_connected (length gs.made_centrals)) refl)
      | inr c ↦ elim (Bool-cases (new == 0)) [
        | inl z ↦ rw (e, c, z) (gone (disconnect_central gs a).1)
        | inr z ↦ rw (e, c, z) refl
      ]
    ]
  ]
    where
      if-quiet :
          (b : Bool) (x : Effect)
          → answered (x ∷ []) ≡ []
          → answered (if b then x ∷ [] else []) ≡ []
      if-quiet true x q = q
      if-quiet false x q = refl

      gone : (o : Option ℕ) → answered (disconnected_effects h o) ≡ []
      gone none = refl
      gone (some c) = if-quiet h.disconnected (central_disconnected c) refl

  read-answered :
      (d : Option BluetoothDevice) (i o : ℕ) (c : Option JavaCharacteristic)
      → answered (handle_characteristic_read_request gs d i o c).1 ≡ (d, i) ∷ []
  unfolding answered handle_characteristic_read_request read_characteristic
  read-answered d i o c = elim (Bool-cases (length (char_uuid_string c) == 0)) [
    | inl z ↦ rw z refl
    | inr z ↦ rw z (of_char (find gs.char_by_uuid (char_uuid_string c)))
  ]
    where
      of_char :
          (k : Option Characteristic) → answered (read_characteristic gs d i o k).1 ≡ (d, i) ∷ []
      of_char none = refl
      of_char (some k) = elim (Option-cases k.read_handler) [
        | inl e ↦ rw e refl
        | inr (g, e) ↦ rw e refl
      ]

  write-answered :
      (d : Option BluetoothDevice) (i : ℕ) (c : Option JavaCharacteristic) (needed o : ℕ)
      (v : List ℕ)
      → answered (handle_characteristic_write_request gs d i c needed o v).1
        ≡ (if needed == 0 then [] else (d, i) ∷ [])
  unfolding answered handle_characteristic_write_request write_characteristic
  write-answered d i c needed o v = elim (Bool-cases (length (char_uuid_string c) == 0)) [
    | inl z ↦ rw z (respond_if-answered d i needed gatt_server_success o [])
    | inr z ↦ rw z (of_char (find gs.char_by_uuid (char_uuid_string c)))
  ]
    where
      of_char :
          (k : Option Characteristic)
          → answered (write_characteristic gs d i needed o (char_uuid_string c) v k).1
            ≡ (if needed == 0 then [] else (d, i) ∷ [])
      of_char none = respond_if-answered d i needed gatt_server_success o []
      of_char (some k) = elim (Option-cases k.write_handler) [
        | inl e ↦ rw e (respond_if-answered d i needed gatt_server_success o [])
        | inr (g, e) ↦ rw e (respond_if-answered d i needed (g v) o [])
      ]

  read_desc-answered :
      (d : Option BluetoothDevice) (i o : ℕ) (desc : Option JavaDescriptor)
      → answered (handle_descriptor_read_request gs d i o desc).1 ≡ (d, i) ∷ []
  unfolding answered handle_descriptor_read_request read_cccd
  read_desc-answered d i o desc =
      elim (Bool-cases (bytes_equal (desc_uuid_string desc) cccd_uuid)) [
        | inl e ↦ rw e refl
        | inr e ↦ rw e refl
      ]

  cccd-answered :
      (g : GattServer) (c : ℕ) (u : Text) (v : List ℕ) (es : List Effect)
      → answered ((handle_cccd_write g c u v).1 ++ es) ≡ answered es
  unfolding answered handle_cccd_write
  cccd-answered g c u v es = elim (Option-cases (find g.char_by_uuid u)) [
    | inl e ↦ rw (handle_cccd_write, e) refl
    | inr (k, e) ↦ elim (Bool-cases (decode_cccd v == 0)) [
      | inl z ↦ rw (handle_cccd_write, e, z) refl
      | inr z ↦ elim (Option-cases k.notify_handler) [
        | inl n ↦ rw (handle_cccd_write, e, z, n) refl
        | inr (nh, n) ↦ rw (handle_cccd_write, e, z, n) refl
      ]
    ]
  ]

  write_desc-answered :
      (d : Option BluetoothDevice) (i : ℕ) (desc : Option JavaDescriptor) (needed : ℕ) (v : List ℕ)
      → answered (handle_descriptor_write_request gs d i desc needed v).1
        ≡ (if needed == 0 then [] else (d, i) ∷ [])
  unfolding answered handle_descriptor_write_request write_cccd
  write_desc-answered d i desc needed v =
      elim (Bool-cases (bytes_equal (desc_uuid_string desc) cccd_uuid)) [
        | inl e ↦ rw e (
            cccd-answered (find_central gs d).0 (find_central gs d).1
              (get_char_uuid_from_descriptor desc) v
              (respond_if needed (response d i gatt_server_success 0 []))
            ∙ respond_if-answered d i needed gatt_server_success 0 [])
        | inr e ↦ rw e (respond_if-answered d i needed gatt_server_success 0 [])
      ]

  mtu-answered :
      (d : Option BluetoothDevice) (mtu : ℕ) → answered (handle_server_mtu_changed gs d mtu).1 ≡ []
  unfolding answered handle_server_mtu_changed
  mtu-answered none mtu = refl
  mtu-answered (some d) mtu = elim (Option-cases (find gs.centrals (get_device_address (some d)))) [
    | inl e ↦ rw (handle_server_mtu_changed, e) refl
    | inr (c, e) ↦ rw (handle_server_mtu_changed, e) refl
  ]

  -- Every callback of the server, in every state, is answered as it waits for it, a read, and a write
  -- that needs a response, with one response for this device and request, and nothing else with any;
  -- except the execution of a long write, which waits for a response and gets none.
  pub handle_gatt_server_callback-answered :
      (c : Callback)
      → answered (handle_gatt_server_callback h gs c).1 ≡ (if is_execution c then [] else waiting c)
  unfolding answered waiting is_execution handle_gatt_server_callback
  handle_gatt_server_callback-answered (connection_state_change d s new) = connection-answered d new
  handle_gatt_server_callback-answered (characteristic_read_request d i o c) = read-answered d i o c
  handle_gatt_server_callback-answered (characteristic_write_request d i c p needed o v) =
      write-answered d i c needed o v
  handle_gatt_server_callback-answered (descriptor_read_request d i o desc) =
      read_desc-answered d i o desc
  handle_gatt_server_callback-answered (descriptor_write_request d i desc p needed o v) =
      write_desc-answered d i desc needed v
  handle_gatt_server_callback-answered (execute_write d i e) = refl
  handle_gatt_server_callback-answered (notification_sent d s) = refl
  handle_gatt_server_callback-answered (mtu_changed d mtu) = mtu-answered d mtu
  handle_gatt_server_callback-answered other = refl
