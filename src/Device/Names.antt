-- ===== src/Device/Names.antt =====
-- device_linux.go: the packets that carry a name.
use gatt.Prelude.{
  ℕ, ◌+◌, ◌-◌, ◌%◌, ◌≤◌, ◌<◌, ◌≡◌, refl, List, [], ◌∷◌, ◌++◌, true, false, Option, none, some, ok,
  arith, length, length-append, length-take, take, take_all, replicate, length-replicate, ltb,
  ltb→lt, le→ltb, if◌then◌else◌, Bool-cases, inl, inr,
}
use gatt.Uuid.{Uuid}
use gatt.Adv.FieldType
use gatt.Adv.Packet.{AdvPacket, bytes, packet_length, append_name, append_flags}
use gatt.Adv.Packet.Room.{
  field, fields, complete, first_fitting, own_uuids, AreUuids, append_field-field,
  append_field_fits, append_uuid_fit-fields,
}
use gatt.Hci.Command.{CmdParam}
use gatt.Hci.Command.LeAdvertising.{LeSetScanResponseData}
use gatt.Device.{
  Device, advertise, with_name, services_packet, advertise_with_name, advertise_name_and_services,
}

-- The flags of a device for all to find.
abbrev pub flags_field : List ℕ
flags_field = 0x02 ∷ 0x01 ∷ 0x06 ∷ []

-- The bytes of the flags and of the UUIDs that fit behind them.
abbrev pub services_bytes : List Uuid → List ℕ
services_bytes uu = flags_field ++ fields (complete 3 uu) (first_fitting 3 (own_uuids uu))

-- A packet with nothing but a name.
abbrev pub name_bytes : List ℕ → List ℕ
name_bytes name =
    field (if ltb 29 (length name) then FieldType.short_name else FieldType.complete_name)
      (take 29 name)

abbrev pub name_response : List ℕ → LeSetScanResponseData
name_response name =
    let b = name_bytes name in
    record {
      scan_response_data_length = length b;
      scan_response_data = b ++ replicate (31 - length b) 0;
    }

services_packet-bytes :
    (uu : List Uuid) → AreUuids uu → services_packet uu ≡ ok (record { b = services_bytes uu })
unfolding services_packet append_flags
services_packet-bytes uu h =
    let flags : append_flags (record { b = [] }) 6 ≡ ok (record { b = flags_field }) =
      append_field_fits (record { b = [] }) FieldType.flags (6 ∷ []) (omega arith) in
    rw flags (rw ((append_uuid_fit-fields (record { b = flags_field }) uu h (omega arith)).0) refl)

-- The name behind the packet, where there is room for all of it.
with_name-fits :
    (a : AdvPacket) (name : List ℕ)
    → ltb (length a.b + length name + 2) 31 ≡ true
    → with_name a name ≡ ok (none, record { b = a.b ++ field FieldType.complete_name name })
unfolding with_name append_name
with_name-fits a name h =
    let room : length a.b + length name + 2 < 31 = ltb→lt _ _ h in
    let small : ltb 31 (length a.b + 2 + length name) ≡ false = le→ltb _ _ (omega arith) in
    rw (h, small) (rw (append_field_fits a FieldType.complete_name name (omega arith)) refl)

-- Otherwise it is alone in the scan response, cut to what fits there.
with_name-response :
    (a : AdvPacket) (name : List ℕ)
    → ltb (length a.b + length name + 2) 31 ≡ false
    → with_name a name ≡ ok (some (name_response name), a)
unfolding with_name append_name bytes packet_length
with_name-response a name h =
    let same : ltb 31 (0 + 2 + length name) ≡ ltb 29 (length name) = ground arith in
    let typ = if ltb 29 (length name) then FieldType.short_name else FieldType.complete_name in
    let short = length-take 29 name in
    let x = field typ (take 29 name) in
    let size : ltb 31 (length x) ≡ false = le→ltb _ _ (omega arith) in
    let zeros = length-replicate {A = ℕ} (31 - length x) 0 in
    let padded = length-append x (replicate (31 - length x) 0) in
    let whole = take_all 31 (x ++ replicate (31 - length x) 0) (omega arith) in
    let byte : length x % 256 ≡ length x = omega arith in
    rw (h, same)
      (rw (append_field-field (record { b = [] }) typ name) (rw (size, whole, byte) refl))

advertise_with_name-packets :
    (controller : CmdParam → List ℕ) (d : Device) (a a' : AdvPacket) (name : List ℕ)
    (resp : Option LeSetScanResponseData)
    → with_name a name ≡ ok (resp, a')
    → advertise_with_name controller d a name
      ≡ advertise controller (record d { scan_resp = resp }) a'
unfolding advertise_with_name
advertise_with_name-packets controller d a a' name resp e = rw (advertise_with_name, e) refl

-- AdvertiseNameAndServices for UUIDs of 2 or 16 bytes and any name: it does not panic before it sends
-- anything. It advertises the flags, a field for each UUID other than 0x1800 and 0x1801 before the first
-- of them that does not fit, and the whole name where all of this takes less than 31 bytes. Otherwise,
-- also where it would take exactly 31, the name is in the scan response instead, cut to 29 bytes, and
-- marked as shortened exactly where it is longer than that. What is advertised is within 31 bytes, and
-- so is the field of the name in the scan response.
pub advertise_name_and_services-packets :
    (controller : CmdParam → List ℕ) (d : Device) (name : List ℕ) (uu : List Uuid)
    → AreUuids uu
    → (advertise_name_and_services controller d name uu ≡ (
        if ltb (length (services_bytes uu) + length name + 2) 31
        then advertise controller
            (record d { scan_resp = none })
            (record { b = services_bytes uu ++ field FieldType.complete_name name })
        else advertise controller
            (record d { scan_resp = some (name_response name) })
            (record { b = services_bytes uu })))
      × (length (services_bytes uu) ≤ 31)
      × (length (name_bytes name) ≤ 31)
unfolding advertise_name_and_services
advertise_name_and_services-packets controller d name uu h =
    let a : AdvPacket = record { b = services_bytes uu } in
    let bound = (append_uuid_fit-fields (record { b = flags_field }) uu h (omega arith)).1 in
    let short = length-take 29 name in
    (
      elim (Bool-cases (ltb (length (services_bytes uu) + length name + 2) 31)) [
        | inl e ↦
            rw (services_packet-bytes uu h, e)
              (advertise_with_name-packets controller d a _ name _ (with_name-fits a name e))
        | inr e ↦
            rw (services_packet-bytes uu h, e)
              (advertise_with_name-packets controller d a _ name _ (with_name-response a name e))
      ],
      bound,
      omega arith,
    )
