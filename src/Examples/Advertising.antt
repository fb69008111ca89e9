-- ===== src/Examples/Advertising.antt =====
-- A device that advertises, and its services.
use gatt.Prelude.{
  ℕ, ◌+◌, ◌%◌, ◌≤◌, ◌≡◌, refl, List, [], ◌∷◌, ◌++◌, none, some, true, inl, length, ltb,
  if◌then◌else◌,
}
use gatt.Uuid.{uuid16}
use gatt.Profile.{Service}
use gatt.Adv.FieldType
use gatt.Adv.Packet.{AdvPacket, bytes, packet_length}
use gatt.Adv.Packet.Room.{field}
use gatt.Hci.Command.{CmdParam}
use gatt.Hci.Command.LeAdvertising.{le_set_advertising_data, le_set_advertising_parameters}
use gatt.Hci.State.{new_hci, returned}
use gatt.Device.{
  Device, new_device, default_adv_param, advertise, set_services, advertise_name_and_services,
}
use gatt.Device.Advertising.{wrapped, enabling, advertise-commands}
use gatt.Device.Names.{
  services_bytes, name_bytes, name_response, advertise_name_and_services-packets,
}
use gatt.Device.Services.{add_all, add_all-set_services}

abbrev accepting : CmdParam → List ℕ
accepting c = 0 ∷ []

abbrev device : Device
device = new_device (new_hci 1)

abbrev packet : AdvPacket
packet = record { b = 2 ∷ 1 ∷ 6 ∷ [] }

advertise-commands_example : advertise accepting device packet ≡ record {
  device = record device { hci = record (new_hci 1) { adv = true }; adv_param = none };
  effects =
      wrapped (new_hci 1) (le_set_advertising_parameters default_adv_param)
      ++ wrapped (new_hci 1) (
          le_set_advertising_data (record {
            advertising_data_length = packet_length packet % 256;
            advertising_data = bytes packet;
          }))
      ++ enabling (record (new_hci 1) { adv = true });
  ended = returned;
}
advertise-commands_example = advertise-commands accepting (λ c. refl) device packet

advertise_name_and_services-packets_example :
    (advertise_name_and_services accepting device (71 ∷ 65 ∷ []) (uuid16 0x180f ∷ []) ≡ (
      if ltb (length (services_bytes (uuid16 0x180f ∷ [])) + 2 + 2) 31
      then advertise accepting
          (record device { scan_resp = none })
          (record {
            b = services_bytes (uuid16 0x180f ∷ []) ++ field FieldType.complete_name (71 ∷ 65 ∷ []);
          })
      else advertise accepting
          (record device { scan_resp = some (name_response (71 ∷ 65 ∷ [])) })
          (record { b = services_bytes (uuid16 0x180f ∷ []) })))
    × (length (services_bytes (uuid16 0x180f ∷ [])) ≤ 31)
    × (length (name_bytes (71 ∷ 65 ∷ [])) ≤ 31)
advertise_name_and_services-packets_example =
    advertise_name_and_services-packets accepting device (71 ∷ 65 ∷ []) (uuid16 0x180f ∷ [])
      (inl refl, tt)

abbrev battery : Service
battery = record { uuid = uuid16 0x180f; chars = []; h = 0; endh = 0 }

abbrev heart_rate : Service
heart_rate = record { uuid = uuid16 0x180d; chars = []; h = 0; endh = 0 }

add_all-set_services_example :
    add_all device (battery ∷ heart_rate ∷ []) ≡ set_services device (battery ∷ heart_rate ∷ [])
add_all-set_services_example = add_all-set_services device battery (heart_rate ∷ []) refl
