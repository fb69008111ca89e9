-- ===== src/Android/GattServer/Answers/Reads.antt =====
-- What the server answers to a read of a characteristic.
use gatt.Prelude.{
  ℕ, ◌+◌, ◌-◌, ◌≤◌, ◌<◌, ◌≡◌, ◌≢◌, refl, sym, ap, ◌∙◌, List, [], ◌∷◌, false, Option, some, arith,
  length, take, drop, ltb, ltb→le, le→ltb, length-drop, length-take, drop_all, ◌==◌, Bool-cases,
  inl, inr,
}
use Prim.Native.Nat.{min}
use gatt.Profile.{Characteristic, ReadHandler}
use gatt.Central.Read.{write, write_calls}
use gatt.Android.Maps.{find}
use gatt.Android.GattServer.{GattServer, gatt_server_success}
use gatt.Android.GattServer.Callback.{
  BluetoothDevice, JavaCharacteristic, Effect, respond, serve_write, central_connected,
  central_disconnected, serve_notify, response, char_uuid_string,
}
use gatt.Android.GattServer.Characteristics.{
  find_central, mtu_of, served, read_characteristic, handle_characteristic_read_request,
}

written_once :
    (capacity : ℕ) (w : List ℕ)
    → length w ≤ capacity
    → (write_calls (record { capacity = capacity; buf = [] }) (w ∷ [])).buf ≡ w
unfolding write_calls write
written_once capacity w fits =
    let room : ltb capacity (0 + length w) ≡ false = le→ltb capacity (0 + length w) (omega arith) in
    rw (write_calls, write, room) refl

-- A handler that writes once, within its capacity, is served from the offset on.
served_once :
    (f : ReadHandler) (capacity offset : ℕ) (w : List ℕ)
    → f capacity offset ≡ w ∷ []
    → length w ≤ capacity
    → served f capacity offset ≡ drop offset w
unfolding served
served_once f capacity offset w e fits =
    rw (served, e, written_once capacity w fits)
      (elim (Bool-cases (ltb offset (length w))) [
        | inl t ↦ rw t refl
        | inr t ↦ rw t (sym (drop_all offset w (ltb→le offset (length w) t)))
      ])

response_value : List Effect → List ℕ
response_value [] = []
response_value (respond r ∷ es) = r.value
response_value (serve_write u v ∷ es) = []
response_value (central_connected c ∷ es) = []
response_value (central_disconnected c ∷ es) = []
response_value (serve_notify nh p ∷ es) = []

-- The capacity that a read handler is given.
unfoldable pub read_capacity : GattServer → Option BluetoothDevice → ℕ
unfolding find_central mtu_of
read_capacity gs d = mtu_of (find_central gs d).0 (find_central gs d).1 - 1

module _ (gs : GattServer) (d : Option BluetoothDevice) (i o : ℕ) (c : Option JavaCharacteristic)
    (k : Characteristic) (f : ReadHandler) (named : (length (char_uuid_string c) == 0) ≡ false)
    (known : find gs.char_by_uuid (char_uuid_string c) ≡ some k)
    (handled : k.read_handler ≡ some f) where
  -- A read of a characteristic that the server has, whose read handler writes once, within the
  -- capacity of one byte less than the MTU, is answered with what it wrote from the offset on.
  pub handle_characteristic_read_request-value :
      (w : List ℕ)
      → f (read_capacity gs d) o ≡ w ∷ []
      → length w ≤ (read_capacity gs d)
      → (handle_characteristic_read_request gs d i o c).1
        ≡ response d i gatt_server_success o (drop o w)
  unfolding handle_characteristic_read_request read_characteristic read_capacity
  handle_characteristic_read_request-value w writes fits =
      rw (named, known, read_characteristic, handled)
        (ap (λ b. response d i gatt_server_success o b)
          (served_once f (read_capacity gs d) o w writes fits))

  -- A read handler that serves a value from the offset that it is given, as much as its capacity
  -- allows, does not have its bytes sent, if the offset is not 0 and lies within the value.
  pub handle_characteristic_read_request-offset_twice :
      (v : List ℕ)
      → f (read_capacity gs d) o ≡ take (read_capacity gs d) (drop o v) ∷ []
      → 0 < o
      → o < length v
      → 0 < (read_capacity gs d)
      → (handle_characteristic_read_request gs d i o c).1
        ≢ response d i gatt_server_success o (take (read_capacity gs d) (drop o v))
  unfolding response_value
  handle_characteristic_read_request-offset_twice v writes positive inside room e =
      let w = take (read_capacity gs d) (drop o v) in
      let l : length w ≡ min (read_capacity gs d) (length (drop o v)) =
        length-take (read_capacity gs d) (drop o v) in
      let l' : length (drop o v) ≡ length v - o = length-drop o v in
      let got = handle_characteristic_read_request-value w writes (omega (arith, l)) in
      let same : drop o w ≡ w = ap response_value (sym got ∙ e) in
      let shorter : length (drop o w) ≡ length w - o = length-drop o w in
      let same_length : length (drop o w) ≡ length w = ap length same in
      omega (arith, l, l', shorter, same_length)
