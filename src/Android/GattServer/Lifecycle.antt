-- ===== src/Android/GattServer/Lifecycle.antt =====
-- What holds of the server from its opening to its end, through any callbacks.
pub mod Stops
use gatt.Prelude.{
  ℕ, ◌≡◌, ◌≢◌, refl, sym, ap, subst, ◌∙◌, List, [], ◌∷◌, ◌++◌, Bool, true, false, Option, none,
  some, get_elem?, bytes_equal, if◌then◌else◌, Bool-cases, Option-cases, inl, inr, All,
}
use gatt.Profile.{Service, Characteristic}
use gatt.Prelude.{update}
use gatt.Android.Maps.{Text, find, bytes_equal_self}
use gatt.Android.GattServer.{
  Central, ServerNotifier, GattServer, addr_at, notifier_key, cccd_uuid, disconnect_central,
  close_gatt_server, gatt_server_success, NotifyCalls, Outcome, NotifyCall, central_stopped, write,
  stop, stop_entries, close_each, close_central, close_centrals,
}
use gatt.Android.GattServer.Callback.{
  Callback, connection_state_change, BluetoothDevice, JavaDescriptor, CentralHandlers,
  get_device_address, desc_uuid_string, get_char_uuid_from_descriptor, response,
}
use gatt.Android.GattServer.Characteristics.{addr_of, find_central}
use gatt.Android.GattServer.Descriptors.{handle_descriptor_read_request, read_cccd, cccd_value}
use gatt.Android.GattServer.Dispatch.{callbacks}
use gatt.Android.GattServer.Opening.{
  JavaSide, index_chars, add_services, new_gatt_server, open_gatt_server, OpenResult, opened,
  of_services,
}
use gatt.Android.GattServer.Connected.{
  IsAddress, none-Connected, close_central-KeepsAddr, update_cases, same, other,
}
use gatt.Android.GattServer.Subscribed.{none-Subscribed, Entry, All-find, running-update}
use gatt.Android.GattServer.Subscribed.Modes.{
  mode, mode-none, mode-running, cccd_bytes, cccd_value-mode,
}
use gatt.Android.GattServer.Simulation.{
  Subscriptions, forget, Simulates, find_central-Found, address-of,
}
use gatt.Android.GattServer.Simulation.Connections.{disconnect-Simulates}
use gatt.Android.GattServer.Subscriptions.{HasAddress, WellFormed, subscribe_all, Follows}
use gatt.Android.GattServer.Subscriptions.Handlers.{callbacks-Follows}
use gatt.Android.GattServer.Subscriptions.Unchanged.{addr_of-stored}
use gatt.Android.GattServer.Lifecycle.Stops.{write-stopped, running-stop_entries, open-close_each}

abbrev pub none_subscribed : Subscriptions
none_subscribed u a = none

-- A server with no centrals and no notifiers.
pub record IsNew (gs : GattServer) : Type 0 where
  pub centrals : gs.centrals ≡ []
  pub notifiers : gs.notifiers ≡ []
  pub made_centrals : gs.made_centrals ≡ []
  pub made_notifiers : gs.made_notifiers ≡ []

new-Simulates : (gs : GattServer) → IsNew gs → Simulates gs none_subscribed
unfolding find
new-Simulates gs n = record {
  connected = rw (n.centrals, n.made_centrals) none-Connected;
  subscribed = rw (n.notifiers, n.made_notifiers) (none-Subscribed gs.centrals gs.made_centrals);
  modes =
      λ u a la. mode-none gs.notifiers gs.made_notifiers (notifier_key u a) (rw n.notifiers refl);
}

index_chars-IsNew :
    (j : JavaSide) (cs : List Characteristic) (gs : GattServer)
    → IsNew gs
    → IsNew (index_chars j gs cs)
unfolding index_chars
index_chars-IsNew j [] gs n = n
index_chars-IsNew j (c ∷ cs) gs n = elim (Option-cases (j.create c)) [
  | inl e ↦ rw (index_chars, e) (index_chars-IsNew j cs gs n)
  | inr (obj, e) ↦
      rw (index_chars, e)
        (index_chars-IsNew j cs _ (record {
          centrals = n.centrals;
          notifiers = n.notifiers;
          made_centrals = n.made_centrals;
          made_notifiers = n.made_notifiers;
        }))
]

add_services-IsNew :
    (j : JavaSide) (gs gs' : GattServer) (svcs : List Service)
    → IsNew gs
    → add_services j gs svcs ≡ some gs'
    → IsNew gs'
unfolding add_services
add_services-IsNew j gs gs' [] n e = let s : gs ≡ gs' = cc in subst IsNew s n
add_services-IsNew j gs gs' (svc ∷ svcs) n e = elim (Bool-cases (j.add_service svc)) [
  | inl t ↦
      add_services-IsNew j (index_chars j gs svc.chars) gs' svcs
        (index_chars-IsNew j svc.chars gs n) (rw t at e)
  | inr t ↦ let clash : none ≡ some gs' = rw t at e in cc
]

open_gatt_server-IsNew :
    (j : JavaSide) (server : Bool) (svcs : List Service) (gs : GattServer)
    → open_gatt_server j server svcs ≡ opened gs
    → IsNew gs
unfolding open_gatt_server of_services new_gatt_server
open_gatt_server-IsNew j server [] gs e = cc
open_gatt_server-IsNew j false (svc ∷ svcs) gs e = cc
open_gatt_server-IsNew j true (svc ∷ svcs) gs e =
    elim (Option-cases (add_services j new_gatt_server (svc ∷ svcs))) [
      | inl f ↦ let clash : of_services none ≡ opened gs = rw f at e in cc
      | inr (g, f) ↦
          let one : of_services (some g) ≡ opened gs = rw f at e in
          let g_gs : g ≡ gs = cc in
          add_services-IsNew j new_gatt_server gs (svc ∷ svcs)
            (record {
              centrals = refl;
              notifiers = refl;
              made_centrals = refl;
              made_notifiers = refl;
            })
            (f ∙ ap some g_gs)
    ]

-- The states that a server reaches after it is opened.
module _ (j : JavaSide) (server : Bool) (svcs : List Service) (gs : GattServer)
    (h : CentralHandlers) (cs : List Callback)
    (open_ok : open_gatt_server j server svcs ≡ opened gs) (ok : All WellFormed cs) where
  run-Follows :
      Follows gs.char_by_uuid (subscribe_all gs.char_by_uuid none_subscribed cs) (callbacks h gs cs)
  run-Follows =
      callbacks-Follows h gs.char_by_uuid none_subscribed gs cs
        (record {
          simulates = new-Simulates gs (open_gatt_server-IsNew j server svcs gs open_ok);
          same_chars = refl;
        })
        ok

  -- A read of the configuration descriptor of a characteristic, after any callbacks since the server
  -- was opened, if each has a device with an address, is answered with what these callbacks make of
  -- the subscriptions: the mode of the last value that this central wrote there, if the server has
  -- the characteristic, and none if it has connected or disconnected since or wrote nothing.
  pub read_cccd-subscribed :
      (d : BluetoothDevice) (i o : ℕ) (desc : Option JavaDescriptor)
      → HasAddress (some d)
      → bytes_equal (desc_uuid_string desc) cccd_uuid ≡ true
      → (handle_descriptor_read_request (callbacks h gs cs) (some d) i o desc).1
        ≡ response (some d) i gatt_server_success o (
            cccd_bytes (
              subscribe_all gs.char_by_uuid none_subscribed cs
                (get_char_uuid_from_descriptor desc)
                (get_device_address (some d))))
  unfolding handle_descriptor_read_request read_cccd
  read_cccd-subscribed d i o desc (a, e, len) is_cccd =
      let r =
        find_central-Found (callbacks h gs cs) (subscribe_all gs.char_by_uuid none_subscribed cs)
          run-Follows.simulates d a e len in
      rw is_cccd (
        ap (λ b. response (some d) i gatt_server_success o b)
          (ap
              (λ b.
                cccd_value (find_central (callbacks h gs cs) (some d)).0
                  (notifier_key (get_char_uuid_from_descriptor desc) b))
              (addr_of-stored (find_central (callbacks h gs cs) (some d)).0
                (find_central (callbacks h gs cs) (some d)).1 a r.central)
            ∙ cccd_value-mode (find_central (callbacks h gs cs) (some d)).0
                (notifier_key (get_char_uuid_from_descriptor desc) a)
            ∙ ap cccd_bytes (
                r.simulates.modes (get_char_uuid_from_descriptor desc) a len
                ∙ ap
                    (subscribe_all gs.char_by_uuid none_subscribed cs
                      (get_char_uuid_from_descriptor desc))
                    (sym (address-of d a e)))))

  -- After any callbacks since the server was opened, if each has a device with an address, and a
  -- disconnection, every notifier that was ever made for a central with this address refuses to write
  -- and sends nothing.
  pub write-disconnected :
      (a : Text) (calls : NotifyCalls) (p : ℕ) (n : ServerNotifier) (content : List ℕ)
      → IsAddress a
      → get_elem? (disconnect_central (callbacks h gs cs) a).0.made_notifiers p ≡ some n
      → addr_at (disconnect_central (callbacks h gs cs) a).0.made_centrals n.c ≡ some a
      → write calls (disconnect_central (callbacks h gs cs) a).0 n content ≡ (central_stopped, none)
  write-disconnected a calls p n content len stored central =
      write-stopped calls (disconnect_central (callbacks h gs cs) a).0 n content stopped
    where
      after :
          Simulates
            (disconnect_central (callbacks h gs cs) a).0
            (forget (subscribe_all gs.char_by_uuid none_subscribed cs) a)
      after =
          disconnect-Simulates (callbacks h gs cs)
            (subscribe_all gs.char_by_uuid none_subscribed cs) run-Follows.simulates a len

      stopped : n.done ≡ true
      stopped = elim (Bool-cases n.done) [
        | inl t ↦ t
        | inr r ↦
            let t = after.subscribed.tracked p n stored r in
            let one : some t.addr ≡ some a = sym t.central ∙ central in
            let same_addr : t.addr ≡ a = cc in
            let runs =
              mode-running (disconnect_central (callbacks h gs cs) a).0.notifiers
                (disconnect_central (callbacks h gs cs) a).0.made_notifiers
                (notifier_key n.char t.addr) p n t.entry stored r in
            let none_left = after.modes n.char a len in
            let gone : forget (subscribe_all gs.char_by_uuid none_subscribed cs) a n.char a ≡ none =
              rw (bytes_equal_self a) refl in
            let clash : none ≡ some n.confirm =
              sym (none_left ∙ gone)
              ∙ ap
                  (λ b.
                    mode (disconnect_central (callbacks h gs cs) a).0.notifiers
                      (disconnect_central (callbacks h gs cs) a).0.made_notifiers
                      (notifier_key n.char b))
                  (sym same_addr)
              ∙ runs in
            cc
      ]

  -- After any callbacks since the server was opened, if each has a device with an address, and the
  -- end of the server, every notifier that was ever made refuses to write and sends nothing.
  pub close_gatt_server-quiet :
      (calls : NotifyCalls) (p : ℕ) (n : ServerNotifier) (content : List ℕ)
      → get_elem? (close_gatt_server (callbacks h gs cs)).made_notifiers p ≡ some n
      → write calls (close_gatt_server (callbacks h gs cs)) n content ≡ (central_stopped, none)
  unfolding close_gatt_server close_centrals
  close_gatt_server-quiet calls p n content stored =
      write-stopped calls (close_gatt_server (callbacks h gs cs)) n content
        (elim (Bool-cases n.done) [
          | inl t ↦ t
          | inr r ↦
              let before =
                running-stop_entries (callbacks h gs cs).notifiers
                  (callbacks h gs cs).made_notifiers p n stored r in
              let t = run-Follows.simulates.subscribed.tracked p n before.0 r in
              absurd (before.1 (notifier_key n.char t.addr) t.entry)
        ])

  -- After any callbacks since the server was opened, if each has a device with an address, and the
  -- end of the server, every central that was ever made has released its reference to its device.
  pub close_gatt_server-closed :
      (q : ℕ) (c : Central)
      → get_elem? (close_gatt_server (callbacks h gs cs)).made_centrals q ≡ some c
      → c.bt_dev ≡ none
  unfolding close_gatt_server close_centrals
  close_gatt_server-closed q c stored = elim (Option-cases c.bt_dev) [
    | inl e ↦ e
    | inr (obj, e) ↦
        let before =
          open-close_each (callbacks h gs cs).centrals (callbacks h gs cs).made_centrals q c obj
            stored e in
        absurd (before.1 c.addr (run-Follows.simulates.connected.tracked q c obj before.0 e))
  ]
