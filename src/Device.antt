-- ===== src/Device.antt =====
-- device_linux.go: the services of a device, and what it advertises. The registration of callbacks, and
-- the calls that only go on to HCI, are left out.
pub mod Advertising
pub mod Services
pub mod Names
use gatt.Prelude.{
  ℕ, ◌+◌, ◌%◌, ◌/◌, List, [], ◌∷◌, ◌++◌, Bool, true, false, Option, none, some, Run, ok, panic,
  ◌>>=◌, length, take, drop, replicate, ltb, if◌then◌else◌,
}
use mathlib.Core.List.{reverse}
use gatt.Uuid.{Uuid}
use gatt.Profile.{Service}
use gatt.AttrTable.{AttrRange}
use gatt.AttrTable.Generate.{generate_attributes}
use gatt.Adv.Packet.{
  AdvPacket, bytes, packet_length, append_flags, append_name, append_uuid_fit,
  append_manufacturer_data, max_eir_packet_length,
}
use gatt.Hci.Bytes.{Address}
use gatt.Hci.Command.{CmdParam}
use gatt.Hci.Command.LeAdvertising.{
  LeSetAdvertisingParameters, le_set_advertising_parameters, LeSetAdvertisingData,
  le_set_advertising_data, LeSetScanResponseData, le_set_scan_response_data,
}
use gatt.Hci.State.{
  Hci, Effect, Step, Ended, returned, failed, blocked, panicked, done, send_cmd_with_adv_off,
  set_advertise_enable,
}

-- `attrs` is nil before there are services. The scan parameters are never sent.
pub record Device : Type 0 where
  pub hci : Hci
  pub services : List Service
  pub attrs : Option AttrRange
  pub adv_data : Option LeSetAdvertisingData
  pub scan_resp : Option LeSetScanResponseData
  pub adv_param : Option LeSetAdvertisingParameters

-- The parameters of NewDevice.
abbrev pub default_adv_param : LeSetAdvertisingParameters
default_adv_param = record {
  advertising_interval_min = 0x800;
  advertising_interval_max = 0x800;
  advertising_type = 0x00;
  own_address_type = 0x00;
  direct_address_type = 0x00;
  direct_address = record { a0 = 0; a1 = 0; a2 = 0; a3 = 0; a4 = 0; a5 = 0 };
  advertising_channel_map = 0x7;
  advertising_filter_policy = 0x00;
}

abbrev pub new_device : Hci → Device
new_device h = record {
  hci = h;
  services = [];
  attrs = none;
  adv_data = none;
  scan_resp = none;
  adv_param = some default_adv_param;
}

-- generateAttributes writes the handles into the services.
unfoldable pub regenerate : Device → Device
regenerate d =
    let (r, ss) = generate_attributes d.services 1 in record d { services = ss; attrs = some r }

unfoldable pub add_service : Device → Service → Device
add_service d s = regenerate (record d { services = d.services ++ (s ∷ []) })

abbrev pub remove_all_services : Device → Device
remove_all_services d = record d { services = []; attrs = none }

unfoldable pub set_services : Device → List Service → Device
set_services d ss =
    let d' = remove_all_services d in regenerate (record d' { services = d'.services ++ ss })

-- What a method of the device does.
pub record Outcome : Type 0 where
  pub device : Device
  pub effects : List Effect
  pub ended : Ended

abbrev pub finished : Device → Ended → Outcome
finished d e = record { device = d; effects = []; ended = e }

abbrev pub on_hci : Device → Step → Outcome
on_hci d s = record { device = record d { hci = s.hci }; effects = s.effects; ended = s.ended }

-- What follows a call whose error is passed on.
unfoldable pub go_on : Outcome → (Device → Outcome) → Outcome
go_on o k =
    let t = k o.device in
    elim o.ended [
      | returned ↦ record t { effects = o.effects ++ t.effects }
      | failed ↦ o
      | blocked ↦ o
      | panicked ↦ o
    ]

module _ (controller : CmdParam → List ℕ) where
  -- The three parts of update.
  unfoldable pub flush_adv_param : Device → Outcome
  flush_adv_param d = elim d.adv_param [
    | none ↦ finished d returned
    | some c ↦
        go_on (on_hci d (send_cmd_with_adv_off controller d.hci (le_set_advertising_parameters c)))
          (λ d. finished (record d { adv_param = none }) returned)
  ]

  unfoldable pub flush_scan_resp : Device → Outcome
  flush_scan_resp d = elim d.scan_resp [
    | none ↦ finished d returned
    | some c ↦
        go_on (on_hci d (send_cmd_with_adv_off controller d.hci (le_set_scan_response_data c)))
          (λ d. finished (record d { scan_resp = none }) returned)
  ]

  unfoldable pub flush_adv_data : Device → Outcome
  flush_adv_data d = elim d.adv_data [
    | none ↦ finished d returned
    | some c ↦
        go_on (on_hci d (send_cmd_with_adv_off controller d.hci (le_set_advertising_data c)))
          (λ d. finished (record d { adv_data = none }) returned)
  ]

  unfoldable pub update : Device → Outcome
  update d = go_on (flush_adv_param d) (λ d. go_on (flush_scan_resp d) flush_adv_data)

  unfoldable pub advertise : Device → AdvPacket → Outcome
  advertise d a =
      let d' = record d {
        adv_data = some (record {
          advertising_data_length = packet_length a % 256;
          advertising_data = bytes a;
        });
      } in
      go_on (update d') (λ d. on_hci d (set_advertise_enable controller d.hci true))

abbrev pub flag_general_discoverable : ℕ
flag_general_discoverable = 0x02

abbrev pub flag_le_only : ℕ
flag_le_only = 0x04

-- What AdvertiseNameAndServices and AdvertiseNameAndIBeaconData do with the name: the scan response
-- and the packet that they advertise.
unfoldable pub with_name : AdvPacket → List ℕ → Run (Option LeSetScanResponseData × AdvPacket)
with_name a name =
    if ltb (length a.b + length name + 2) max_eir_packet_length
    then (append_name a name >>= λ a'. ok (none, a'))
    else (append_name (record { b = [] }) name >>= λ r. ok (
      some (record {
        scan_response_data_length = packet_length r % 256;
        scan_response_data = bytes r;
      }),
      a,
    ))

unfoldable pub services_packet : List Uuid → Run AdvPacket
services_packet uu = do
  a ← append_flags (record { b = [] }) (flag_general_discoverable + flag_le_only)
  (fit, a') ← append_uuid_fit a uu
  ok a'

unfoldable pub ibeacon_packet : List ℕ → Run AdvPacket
ibeacon_packet b = do
  a ← append_flags (record { b = [] }) (flag_general_discoverable + flag_le_only)
  append_manufacturer_data a 0x004C b

-- AdvertiseIBeacon: the 23 bytes. `copy` writes at most as many as there are, and no more than the
-- places behind the first two; the numbers are written over what it wrote there.
unfoldable pub ibeacon_data : Uuid → ℕ → ℕ → ℕ → List ℕ
ibeacon_data u major minor pwr =
    let r = reverse u.b in
    0x02 ∷ 0x15 ∷ take 16 (r ++ replicate 16 0)
    ++ (major / 256 % 256 ∷ major % 256 ∷ (minor / 256 % 256) ∷ minor % 256 ∷ pwr % 256 ∷ [])

abbrev pub or_panic : Device → Run AdvPacket → (AdvPacket → Outcome) → Outcome
or_panic d m k = elim m [ panic ↦ finished d panicked | ok a ↦ k a ]

module _ (controller : CmdParam → List ℕ) where
  unfoldable pub advertise_with_name : Device → AdvPacket → List ℕ → Outcome
  advertise_with_name d a name = elim (with_name a name) [
    | panic ↦ finished d panicked
    | ok r ↦ let (resp, a') = r in advertise controller (record d { scan_resp = resp }) a'
  ]

  unfoldable pub advertise_name_and_services : Device → List ℕ → List Uuid → Outcome
  advertise_name_and_services d name uu =
      or_panic d (services_packet uu) (λ a. advertise_with_name d a name)

  unfoldable pub advertise_name_and_ibeacon_data : Device → List ℕ → List ℕ → Outcome
  advertise_name_and_ibeacon_data d name b =
      or_panic d (ibeacon_packet b) (λ a. advertise_with_name d a name)

  unfoldable pub advertise_ibeacon_data : Device → List ℕ → Outcome
  advertise_ibeacon_data d b = or_panic d (ibeacon_packet b) (λ a. advertise controller d a)

  unfoldable pub advertise_ibeacon : Device → Uuid → ℕ → ℕ → ℕ → Outcome
  advertise_ibeacon d u major minor pwr = advertise_ibeacon_data d (ibeacon_data u major minor pwr)

  abbrev pub stop_advertising : Device → Outcome
  stop_advertising d = on_hci d (set_advertise_enable controller d.hci false)
