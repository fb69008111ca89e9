-- ===== src/Android/GattServer/Subscriptions/Handlers.antt =====
-- The handlers, on the subscriptions.
use gatt.Prelude.{
  ℕ, ◌≡◌, sym, ap, subst, ◌∙◌, List, [], ◌∷◌, ◌++◌, not, Option, none, some, length, bytes_equal,
  if◌then◌else◌, ◌==◌, bit_and, Bool-cases, Option-cases, inl, inr, All,
}
use gatt.Profile.{Characteristic}
use gatt.Android.Maps.{Text, find}
use gatt.Android.GattServer.{
  GattServer, cccd_uuid, notifier_key, addr_at, disconnect_central, remember_connected_central,
  new_central,
}
use gatt.Android.GattServer.Callback.{
  Callback, connection_state_change, characteristic_read_request, characteristic_write_request,
  descriptor_read_request, descriptor_write_request, execute_write, notification_sent, mtu_changed,
  other, BluetoothDevice, JavaCharacteristic, JavaDescriptor, CentralHandlers, get_device_address,
  desc_uuid_string, get_char_uuid_from_descriptor, char_uuid_string,
}
use gatt.Android.GattServer.Characteristics.{
  find_central, read_characteristic, write_characteristic, handle_characteristic_read_request,
  handle_characteristic_write_request,
}
use gatt.Android.GattServer.Descriptors.{
  decode_cccd, handle_cccd_write, write_cccd, read_cccd, handle_descriptor_read_request,
  handle_descriptor_write_request,
}
use gatt.Android.GattServer.Dispatch.{
  connected_state, connection_state, handle_server_connection_state_change,
  handle_server_mtu_changed, handle_gatt_server_callback, callbacks,
}
use gatt.Android.GattServer.Connected.{IsAddress}
use gatt.Android.GattServer.Simulation.{Subscriptions, put, find_central-Found, address-of}
use gatt.Android.GattServer.Simulation.Connections.{
  disconnect-Simulates, connect-Simulates, set_mtu-Simulates,
}
use gatt.Android.GattServer.Simulation.Cccd.{enable_cccd-Simulates, disable_cccd-Simulates}
use gatt.Android.GattServer.Subscriptions.{
  HasAddress, WellFormed, has_char, cccd_mode, subscribe, subscribe_all, Follows,
}
use gatt.Android.GattServer.Subscriptions.Unchanged.{
  remember_connected_central-chars, disconnect_central-chars, disable_cccd-chars, enable_cccd-chars,
  addr_of-stored,
}

module _ (h : CentralHandlers) (chars : List (Text × Characteristic)) (s : Subscriptions)
    (gs : GattServer) (f : Follows chars s gs) where
  found : (d : BluetoothDevice) → HasAddress (some d) → Follows chars s (find_central gs (some d)).0
  found d (a, e, len) =
      let r = find_central-Found gs s f.simulates d a e len in
      record { simulates = r.simulates; same_chars = r.same_chars ∙ f.same_chars }

  connection-Follows :
      (d : BluetoothDevice) (st new : ℕ)
      → HasAddress (some d)
      → Follows chars
          (subscribe chars s (connection_state_change (some d) st new))
          (handle_server_connection_state_change h gs (some d) new).0
  unfolding handle_server_connection_state_change subscribe connection_state connected_state
  connection-Follows d st new (a, e, len) =
      rw (handle_server_connection_state_change, e)
        (elim (Bool-cases (new == 2)) [
          | inl c ↦ rw c (record {
            simulates = connect-Simulates gs s f.simulates a d.obj len;
            same_chars = remember-chars a d.obj ∙ f.same_chars;
          })
          | inr c ↦ elim (Bool-cases (new == 0)) [
            | inl z ↦
                rw (c, z)
                  (record {
                    simulates = disconnect-Simulates gs s f.simulates a len;
                    same_chars = disconnect-chars a ∙ f.same_chars;
                  })
            | inr z ↦ rw (c, z) f
          ]
        ])
    where
      remember-chars :
          (a : Text) (obj : ℕ)
          → (remember_connected_central
              (record gs { made_centrals = gs.made_centrals ++ (new_central obj a ∷ []) })
              a
              (length gs.made_centrals)).char_by_uuid
            ≡ gs.char_by_uuid
      remember-chars a obj =
          remember_connected_central-chars
            (record gs { made_centrals = gs.made_centrals ++ (new_central obj a ∷ []) }) a
            (length gs.made_centrals)

      disconnect-chars : (a : Text) → (disconnect_central gs a).0.char_by_uuid ≡ gs.char_by_uuid
      disconnect-chars a = disconnect_central-chars gs a

  read-Follows :
      (d : BluetoothDevice) (i o : ℕ) (c : Option JavaCharacteristic)
      → HasAddress (some d)
      → Follows chars s (handle_characteristic_read_request gs (some d) i o c).0
  unfolding handle_characteristic_read_request read_characteristic
  read-Follows d i o c ok = elim (Bool-cases (length (char_uuid_string c) == 0)) [
    | inl z ↦ rw z f
    | inr z ↦ rw z (of_char (find gs.char_by_uuid (char_uuid_string c)))
  ]
    where
      of_char :
          (k : Option Characteristic) → Follows chars s (read_characteristic gs (some d) i o k).0
      of_char none = f
      of_char (some k) = elim (Option-cases k.read_handler) [
        | inl e ↦ rw e (found d ok)
        | inr (g, e) ↦ rw e (found d ok)
      ]

  write-Follows :
      (d : BluetoothDevice) (i : ℕ) (c : Option JavaCharacteristic) (needed o : ℕ) (v : List ℕ)
      → HasAddress (some d)
      → Follows chars s (handle_characteristic_write_request gs (some d) i c needed o v).0
  unfolding handle_characteristic_write_request write_characteristic
  write-Follows d i c needed o v ok = elim (Bool-cases (length (char_uuid_string c) == 0)) [
    | inl z ↦ rw z f
    | inr z ↦ rw z (of_char (find gs.char_by_uuid (char_uuid_string c)))
  ]
    where
      of_char :
          (k : Option Characteristic)
          → Follows chars s (write_characteristic gs (some d) i needed o (char_uuid_string c) v k).0
      of_char none = f
      of_char (some k) = elim (Option-cases k.write_handler) [
        | inl e ↦ rw e (found d ok)
        | inr (g, e) ↦ rw e (found d ok)
      ]

  mtu-Follows :
      (d : BluetoothDevice) (mtu : ℕ)
      → HasAddress (some d)
      → Follows chars s (handle_server_mtu_changed gs (some d) mtu).0
  unfolding handle_server_mtu_changed
  mtu-Follows d mtu ok = elim (Option-cases (find gs.centrals (get_device_address (some d)))) [
    | inl e ↦ rw (handle_server_mtu_changed, e) f
    | inr (c, e) ↦
        rw (handle_server_mtu_changed, e)
          (record {
            simulates = set_mtu-Simulates gs s f.simulates c mtu;
            same_chars = f.same_chars;
          })
  ]

  read_cccd-Follows :
      (d : BluetoothDevice) (i o : ℕ) (desc : Option JavaDescriptor)
      → HasAddress (some d)
      → Follows chars s (handle_descriptor_read_request gs (some d) i o desc).0
  unfolding handle_descriptor_read_request read_cccd
  read_cccd-Follows d i o desc ok =
      elim (Bool-cases (bytes_equal (desc_uuid_string desc) cccd_uuid)) [
        | inl e ↦ rw e (found d ok)
        | inr e ↦ rw e f
      ]

  cccd_write-Follows :
      (u a : Text) (v : List ℕ) (g : GattServer) (c : ℕ)
      → IsAddress a
      → Follows chars s g
      → addr_at g.made_centrals c ≡ some a
      → find g.centrals a ≡ some c
      → Follows chars
          (if has_char chars u then put s u a (cccd_mode v) else s)
          (handle_cccd_write g c u v).0
  unfolding handle_cccd_write has_char cccd_mode
  cccd_write-Follows u a v g c len k central connected = elim (Option-cases (find chars u)) [
    | inl e ↦
        let e' : find g.char_by_uuid u ≡ none = ap (λ m. find m u) k.same_chars ∙ e in
        rw (has_char, handle_cccd_write, e, e') k
    | inr (ch, e) ↦
        let e' : find g.char_by_uuid u ≡ some ch = ap (λ m. find m u) k.same_chars ∙ e in
        let addr = addr_of-stored g c a central in
        elim (Bool-cases (decode_cccd v == 0)) [
          | inl z ↦
              rw (has_char, handle_cccd_write, e, e', addr, z)
                (record {
                  simulates = disable_cccd-Simulates g s k.simulates u a len;
                  same_chars = disable_cccd-chars g (notifier_key u a) ∙ k.same_chars;
                })
          | inr z ↦
              rw (has_char, handle_cccd_write, e, e', addr, z)
                (record {
                  simulates =
                      enable_cccd-Simulates g s k.simulates u a len c
                        (not (bit_and (decode_cccd v) 2 == 0)) central connected;
                  same_chars =
                      enable_cccd-chars g (notifier_key u a) u c
                        (not (bit_and (decode_cccd v) 2 == 0))
                      ∙ k.same_chars;
                })
        ]
  ]

  write_cccd-Follows :
      (d : BluetoothDevice) (i : ℕ) (desc : Option JavaDescriptor) (p needed o : ℕ) (v : List ℕ)
      → HasAddress (some d)
      → Follows chars
          (subscribe chars s (descriptor_write_request (some d) i desc p needed o v))
          (handle_descriptor_write_request gs (some d) i desc needed v).0
  unfolding handle_descriptor_write_request write_cccd subscribe
  write_cccd-Follows d i desc p needed o v (a, e, len) =
      elim (Bool-cases (bytes_equal (desc_uuid_string desc) cccd_uuid)) [
        | inr b ↦ rw b f
        | inl b ↦
            let r = find_central-Found gs s f.simulates d a e len in
            rw b (
              subst
                (λ x.
                  Follows chars
                    (if has_char chars (get_char_uuid_from_descriptor desc)
                      then put s (get_char_uuid_from_descriptor desc) x (cccd_mode v)
                      else s)
                    (handle_cccd_write (find_central gs (some d)).0 (find_central gs (some d)).1
                      (get_char_uuid_from_descriptor desc) v).0)
                (sym (address-of d a e))
                (cccd_write-Follows (get_char_uuid_from_descriptor desc) a v
                  (find_central gs (some d)).0 (find_central gs (some d)).1 len
                  (found d (a, e, len)) r.central r.connected))
      ]

  -- Each callback does to the subscriptions what it means.
  pub callback-Follows :
      (c : Callback)
      → WellFormed c
      → Follows chars (subscribe chars s c) (handle_gatt_server_callback h gs c).0
  unfolding handle_gatt_server_callback subscribe
  callback-Follows (connection_state_change none st new) ok = absurd ok
  callback-Follows (connection_state_change (some d) st new) ok = connection-Follows d st new ok
  callback-Follows (characteristic_read_request none i o c) ok = absurd ok
  callback-Follows (characteristic_read_request (some d) i o c) ok = read-Follows d i o c ok
  callback-Follows (characteristic_write_request none i c p needed o v) ok = absurd ok
  callback-Follows (characteristic_write_request (some d) i c p needed o v) ok =
      write-Follows d i c needed o v ok
  callback-Follows (descriptor_read_request none i o desc) ok = absurd ok
  callback-Follows (descriptor_read_request (some d) i o desc) ok = read_cccd-Follows d i o desc ok
  callback-Follows (descriptor_write_request none i desc p needed o v) ok = absurd ok
  callback-Follows (descriptor_write_request (some d) i desc p needed o v) ok =
      write_cccd-Follows d i desc p needed o v ok
  callback-Follows (execute_write d i e) ok = f
  callback-Follows (notification_sent d st) ok = f
  callback-Follows (mtu_changed none mtu) ok = absurd ok
  callback-Follows (mtu_changed (some d) mtu) ok = mtu-Follows d mtu ok
  callback-Follows other ok = f

pub callbacks-Follows :
    (h : CentralHandlers) (chars : List (Text × Characteristic)) (s : Subscriptions)
    (gs : GattServer) (cs : List Callback)
    → Follows chars s gs
    → All WellFormed cs
    → Follows chars (subscribe_all chars s cs) (callbacks h gs cs)
unfolding callbacks subscribe_all
callbacks-Follows h chars s gs [] f ok = f
callbacks-Follows h chars s gs (c ∷ cs) f ok =
    callbacks-Follows h chars (subscribe chars s c) (handle_gatt_server_callback h gs c).0 cs
      (callback-Follows h chars s gs f c ok.0) ok.1
