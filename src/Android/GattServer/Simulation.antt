-- ===== src/Android/GattServer/Simulation.antt =====
-- The subscriptions that the server keeps, as a function from a characteristic and a central, and how
-- the parts of the handlers change it.
pub mod Connections
pub mod Cccd
use gatt.Prelude.{
  ℕ, zero, suc, ◌+◌, ◌<◌, ◌≡◌, ◌≢◌, refl, sym, ap, subst, ◌∙◌, List, [], ◌∷◌, ◌++◌, Bool, true,
  false, ◌&&◌, Option, none, some, arith, length, get_elem?, bytes_equal, bytes_equal_iff,
  if◌then◌else◌, ◌==◌, ==_iff, Bool-cases, Option-cases, inl, inr,
}
use gatt.Prelude.{update, get_elem?-append_last, update-append, length-update, get_elem?-lt}
use gatt.Android.Maps.{
  Text, find, erase, store, find-erase_other, find-erase_same, find-store, bytes_equal_self,
}
use gatt.Android.GattServer.{
  Central, ServerNotifier, GattServer, stop, addr_at, notifier_key, new_central, close_central,
  set_mtu, pop_entries, stop_each, stop_for_address, remember_connected_central, disconnect_central,
}
use gatt.Android.GattServer.Callback.{BluetoothDevice, get_device_address}
use gatt.Android.GattServer.Characteristics.{find_central, find_central_at, temporary_central}
use gatt.Android.GattServer.Descriptors.{enable_cccd, disable_cccd, stop_existing}
use gatt.Android.GattServer.Connected.{
  IsAddress, Connected, addr_at-append, addr_at-append_last, addr_at-update, set_mtu-Connected,
  close_central-KeepsAddr, set_mtu-KeepsAddr,
}
use gatt.Android.GattServer.Connected.Changes.{
  add-Connected, erase-Connected-close, erase-Connected-none,
}
use gatt.Android.GattServer.Subscribed.Changes.{clear-Subscribed, add-Subscribed}
use gatt.Android.GattServer.Subscribed.{Subscribed, Entry, All-find, more-Subscribed}
use gatt.Android.GattServer.Subscribed.Popped.{pop-Subscribed}
use gatt.Android.GattServer.Subscribed.Modes.{
  mode, mode-none, mode-clear, mode-add, mode-pop, notifier_key-addr, notifier_key-uuid,
}

-- Which central has subscribed to which characteristic: `some true` to its indications, `some false`
-- to its notifications.
abbrev pub Subscriptions : Type 0
Subscriptions = Text → Text → Option Bool

-- A central's subscriptions go.
abbrev pub forget : Subscriptions → Text → Subscriptions
forget s b u a = if bytes_equal b a then none else s u a

abbrev pub put : Subscriptions → Text → Text → Option Bool → Subscriptions
put s v b o u a = if bytes_equal v u && bytes_equal b a then o else s u a

pub address-of :
    (d : BluetoothDevice) (a : Text) → d.address ≡ some a → get_device_address (some d) ≡ a
unfolding get_device_address
address-of d a e = rw (get_device_address, e) refl

pub addr_at-stored :
    (cs : List Central) (q : ℕ) (c : Central) → get_elem? cs q ≡ some c → addr_at cs q ≡ some c.addr
unfolding addr_at
addr_at-stored cs q c e = rw (addr_at, e) refl

pub length-stop_existing :
    (made : List ServerNotifier) (o : Option ℕ) → length (stop_existing made o) ≡ length made
unfolding stop_existing
length-stop_existing made none = refl
length-stop_existing made (some p) = length-update made p _

pub record Simulates (gs : GattServer) (s : Subscriptions) : Type 0 where
  pub connected : Connected gs.centrals gs.made_centrals
  pub subscribed : Subscribed gs.centrals gs.made_centrals gs.notifiers gs.made_notifiers
  pub modes :
      (u a : Text) → IsAddress a → mode gs.notifiers gs.made_notifiers (notifier_key u a) ≡ s u a

module _ (gs : GattServer) (s : Subscriptions) (h : Simulates gs s) where
  -- A new central that takes the place of none.
  abbrev pub added : Text → ℕ → ℕ → GattServer
  unfolding store
  added a obj mtu = record gs {
    centrals = store gs.centrals a (length gs.made_centrals);
    made_centrals = gs.made_centrals ++ (record { addr = a; bt_dev = some obj; mtu = mtu } ∷ []);
  }

  pub added-Simulates :
      (a : Text) (obj mtu : ℕ)
      → find gs.centrals a ≡ none
      → IsAddress a
      → Simulates (added a obj mtu) s
  unfolding store
  added-Simulates a obj mtu free len = record {
    connected =
        add-Connected (erase gs.centrals a) gs.made_centrals
          (erase-Connected-none gs.centrals gs.made_centrals h.connected a free) a obj mtu
          (find-erase_same gs.centrals a) len;
    subscribed =
        more-Subscribed gs.centrals gs.made_centrals gs.notifiers gs.made_notifiers h.subscribed
          (store gs.centrals a (length gs.made_centrals))
          (gs.made_centrals ++ (record { addr = a; bt_dev = some obj; mtu = mtu } ∷ []))
          (λ q b e. addr_at-append gs.made_centrals _ q b e) still;
    modes = h.modes;
  }
    where
      still :
          (b : Text) (q : ℕ)
          → find gs.centrals b ≡ some q
          → find (store gs.centrals a (length gs.made_centrals)) b ≡ some q
      still b q e = elim (Bool-cases (bytes_equal a b)) [
        | inl t ↦
            let clash : none ≡ some q =
              sym free ∙ ap (find gs.centrals) ((bytes_equal_iff a b).0 t) ∙ e in
            cc
        | inr t ↦ rw (find-store gs.centrals a b (length gs.made_centrals), t) e
      ]

  -- What findCentral finds for an address.
  pub record Found (a : Text) (r : GattServer × ℕ) : Type 0 where
    pub simulates : Simulates r.0 s
    pub central : addr_at r.0.made_centrals r.1 ≡ some a
    pub connected : find r.0.centrals a ≡ some r.1
    pub same_chars : r.0.char_by_uuid ≡ gs.char_by_uuid

  pub Found-at :
      (d : BluetoothDevice) (a : Text) → IsAddress a → Found a (find_central_at gs (some d) a)
  unfolding find_central_at temporary_central
  Found-at d a len = elim (Option-cases (find gs.centrals a)) [
    | inl f ↦
        rw (find_central_at, f)
          (record {
            simulates = added-Simulates a d.obj 23 f len;
            central = addr_at-append_last gs.made_centrals (new_central d.obj a);
            connected =
                find-store gs.centrals a a (length gs.made_centrals) ∙ rw (bytes_equal_self a) refl;
            same_chars = refl;
          })
    | inr (c, f) ↦
        let o = h.connected.known a c f in
        rw (find_central_at, f)
          (record {
            simulates = h;
            central = addr_at-stored gs.made_centrals c o.c o.stored ∙ ap some o.same_addr;
            connected = f;
            same_chars = refl;
          })
  ]

  pub find_central-Found :
      (d : BluetoothDevice) (a : Text)
      → d.address ≡ some a
      → IsAddress a
      → Found a (find_central gs (some d))
  unfolding find_central
  find_central-Found d a e len =
      subst (λ b. Found a (find_central_at gs (some d) b)) (sym (address-of d a e))
        (Found-at d a len)
