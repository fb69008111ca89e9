-- ===== src/Android/GattServer.antt =====
-- android/jni/gatt_server.go and android/jni/central.go: the state of the server, its centrals and
-- its notifiers.
pub mod Callback
pub mod Characteristics
pub mod Descriptors
pub mod Dispatch
pub mod Connected
pub mod Subscribed
pub mod Simulation
pub mod Subscriptions
pub mod Lifecycle
pub mod Answers
pub mod Opening
use gatt.Prelude.{
  ℕ, ◌+◌, ◌-◌, List, [], ◌∷◌, ◌++◌, Bool, true, false, ◌||◌, Option, none, some, length, get_elem?,
  bytes_equal, ◌==◌, if◌then◌else◌,
}
use gatt.Profile.{Characteristic, Descriptor}
use gatt.Prelude.{update}
use gatt.Android.Maps.{Text, find, store, erase, has_suffix}

-- The responses to Android: the status of success, and the one for an offset, which no code uses.
abbrev pub gatt_server_success : ℕ
gatt_server_success = 0

abbrev pub gatt_server_invalid_offset : ℕ
gatt_server_invalid_offset = 7

-- "00002902-0000-1000-8000-00805f9b34fb"
abbrev pub cccd_uuid : Text
cccd_uuid =
    48 ∷ 48 ∷ 48 ∷ 48 ∷ 50 ∷ 57 ∷ 48 ∷ 50 ∷ 45 ∷ 48 ∷ 48 ∷ 48 ∷ 48 ∷ 45 ∷ 49 ∷ 48 ∷ 48 ∷ 48 ∷ 45
    ∷ 56 ∷ 48 ∷ 48 ∷ 48 ∷ 45 ∷ 48 ∷ 48 ∷ 56 ∷ 48 ∷ 53 ∷ 102 ∷ 57 ∷ 98 ∷ 51 ∷ 52 ∷ 102 ∷ 98 ∷ []

-- `bt_dev` is the global reference to the BluetoothDevice, a number, and `none` once it is released.
-- Android reports no MTU below 23.
pub record Central : Type 0 where
  pub addr : Text
  pub bt_dev : Option ℕ
  pub mtu : ℕ

-- `c` is the position of the central among those made; `char` is the key under which charByUUID has
-- the characteristic.
pub record ServerNotifier : Type 0 where
  pub c : ℕ
  pub char : Text
  pub char_obj : Option ℕ
  pub confirm : Bool
  pub done : Bool

-- gattServerState. The maps of centrals and notifiers lead to positions among all that were made.
pub record GattServer : Type 0 where
  pub char_by_uuid : List (Text × Characteristic)
  pub desc_by_uuid : List (Text × Descriptor)
  pub char_obj_by_uuid : List (Text × ℕ)
  pub centrals : List (Text × ℕ)
  pub notifiers : List (Text × ℕ)
  pub made_centrals : List Central
  pub made_notifiers : List ServerNotifier

unfoldable pub new_central : ℕ → Text → Central
new_central obj addr = record { addr = addr; bt_dev = some obj; mtu = 23 }

-- central.Close
unfoldable pub close_central : Central → Central
close_central c = record c { bt_dev = none }

-- serverNotifier.stop
unfoldable pub stop : ServerNotifier → ServerNotifier
stop n = record n { done = true }

unfoldable pub set_mtu : ℕ → Central → Central
set_mtu mtu c = record c { mtu = mtu }

unfoldable pub stop_each : List ℕ → List ServerNotifier → List ServerNotifier
unfolding update stop
stop_each [] ns = ns
stop_each (p ∷ ps) ns = stop_each ps (update ns p stop)

-- charUUID + ":" + centralAddr
unfoldable pub notifier_key : Text → Text → Text
notifier_key char_uuid central_addr = char_uuid ++ (58 ∷ central_addr)

unfoldable pub addr_at : List Central → ℕ → Option Text
addr_at cs c = elim (get_elem? cs c) [ none ↦ none | some k ↦ some k.addr ]

-- `n.c.addr`, of the notifier at a position.
unfoldable pub owner : GattServer → ℕ → Option Text
unfolding addr_at
owner gs p = elim (get_elem? gs.made_notifiers p) [
  | none ↦ none
  | some n ↦ addr_at gs.made_centrals n.c
]

-- The test of popNotifiersForCentralAddressLocked on an entry.
unfoldable pub belongs : GattServer → Text → Text → ℕ → Bool
unfolding owner has_suffix
belongs gs addr key p =
    elim (owner gs p) [ none ↦ false | some a ↦ bytes_equal a addr ] || has_suffix key (58 ∷ addr)

-- The entries that stay, and the notifiers of those that are taken out.
unfoldable pub pop_entries : GattServer → Text → List (Text × ℕ) → List (Text × ℕ) × List ℕ
unfolding belongs
pop_entries gs addr [] = ([], [])
pop_entries gs addr ((key, p) ∷ m) =
    let rest = pop_entries gs addr m in
    if belongs gs addr key p then (rest.0, p ∷ rest.1) else ((key, p) ∷ rest.0, rest.1)

-- popNotifiersForCentralAddressLocked, and the stop of the notifiers that it returns.
unfoldable pub stop_for_address : GattServer → Text → GattServer
unfolding pop_entries stop_each
stop_for_address gs addr =
    let popped = pop_entries gs addr gs.notifiers in
    record gs { notifiers = popped.0; made_notifiers = stop_each popped.1 gs.made_notifiers }

-- rememberConnectedCentral, for the central that is at position `c` and has the address.
unfoldable pub remember_connected_central : GattServer → Text → ℕ → GattServer
unfolding find store update close_central stop_for_address
remember_connected_central gs addr c =
    let remembered = record gs { centrals = store gs.centrals addr c } in
    elim (find gs.centrals addr) [
      | none ↦ remembered
      | some previous ↦
          if previous == c
          then remembered
          else let stopped = stop_for_address remembered addr in
            record stopped { made_centrals = update stopped.made_centrals previous close_central }
    ]

-- disconnectCentral, with the central that was connected.
unfoldable pub disconnect_central : GattServer → Text → GattServer × Option ℕ
unfolding find erase update close_central stop_for_address
disconnect_central gs addr =
    let stopped = stop_for_address (record gs { centrals = erase gs.centrals addr }) addr in
    elim (find gs.centrals addr) [
      | none ↦ (stopped, none)
      | some c ↦
          (record stopped { made_centrals = update stopped.made_centrals c close_central }, some c)
    ]

unfoldable pub close_each : List (Text × ℕ) → List Central → List Central
unfolding update close_central
close_each [] cs = cs
close_each ((addr, c) ∷ m) cs = close_each m (update cs c close_central)

unfoldable pub close_centrals : GattServer → GattServer
unfolding close_each
close_centrals gs = record gs {
  centrals = [];
  made_centrals = close_each gs.centrals gs.made_centrals;
}

unfoldable pub stop_entries : List (Text × ℕ) → List ServerNotifier → List ServerNotifier
unfolding update stop
stop_entries [] ns = ns
stop_entries ((key, p) ∷ m) ns = stop_entries m (update ns p stop)

-- closeGattServer, but for the references to the characteristics and the calls of the server.
unfoldable pub close_gatt_server : GattServer → GattServer
unfolding close_centrals stop_entries
close_gatt_server gs =
    close_centrals
      (record gs { notifiers = []; made_notifiers = stop_entries gs.notifiers gs.made_notifiers })

-- What setValue and notifyCharacteristicChanged answer; `none` is an exception.
pub record NotifyCalls : Type 0 where
  pub set_value : Bool
  pub notify : Option Bool

pub data Outcome : Type 0 where
  written : ℕ → Outcome
  central_stopped set_value_failed central_closed notify_failed notify_refused : Outcome

-- serverNotifier.Write after setValue, on the reference to the device of the central: the call of
-- notifyCharacteristicChanged, if it is reached, with the device, confirm and the data.
abbrev pub NotifyCall : Type 0
NotifyCall = ℕ × Bool × List ℕ

unfoldable pub notify_changed :
    NotifyCalls → ServerNotifier → List ℕ → Option ℕ → Outcome × Option NotifyCall
notify_changed calls n content none = (central_closed, none)
notify_changed calls n content (some dev) = elim calls.notify [
  | none ↦ (notify_failed, some (dev, n.confirm, content))
  | some ok ↦
      (if ok then written (length content) else notify_refused, some (dev, n.confirm, content))
]

-- serverNotifier.Write
unfoldable pub write :
    NotifyCalls → GattServer → ServerNotifier → List ℕ → Outcome × Option NotifyCall
unfolding notify_changed
write calls gs n content =
    if n.done
    then (central_stopped, none)
    else if calls.set_value
    then elim (get_elem? gs.made_centrals n.c) [
      | none ↦ (central_closed, none)
      | some c ↦ notify_changed calls n content c.bt_dev
    ]
    else (set_value_failed, none)

-- serverNotifier.Cap, which is not negative for the MTUs that Android reports.
unfoldable pub cap : GattServer → ServerNotifier → Option ℕ
cap gs n = elim (get_elem? gs.made_centrals n.c) [ none ↦ none | some c ↦ some (c.mtu - 3) ]
