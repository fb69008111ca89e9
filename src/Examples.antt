-- ===== src/Examples.antt =====
-- A battery service and what the development's theorems say of it, and further concrete inputs.
mod Hci
mod Advertising
mod Android
use gatt.Prelude.{
  ℕ, ◌≤◌, ◌≡◌, refl, List, [], ◌∷◌, ◌++◌, true, false, none, some, inl, arith, ok, panic, ◌>>=◌,
  Ensures, Bool, exact, replicate, put_uint16,
}
use gatt.Uuid.{uuid16, equal, len, uuid_contains, contains_loop}
use gatt.Att.{attr_primary_service_uuid, attr_characteristic_uuid}
use gatt.Att.Op
use gatt.L2capWriter.Writes.{idle, write_all, write_all-idle}
use mathlib.Core.List.{flatten}
use gatt.Profile.{Service, Characteristic, char_read}
use gatt.AttrTable.{Attr, AttrRange, service, characteristic, at_handle, subrange}
use gatt.AttrTable.Generate.{generate_attributes}
use gatt.AttrTable.Lookup.{IsContiguous, at_handle-find_handle, subrange-in_range}
use gatt.AttrTable.Handles.{Tiles, generate_attributes-IsContiguous, generate_attributes-Tiles}
use gatt.Central.State.{Central}
use gatt.Central.Discovery.{handle_find_by_type_value}
use gatt.Central.Discovery.Ranges.{range_request}
use gatt.Central.Discovery.Services.{PrimariesAreServices}
use gatt.Central.Discovery.ByTypeValue.{handle_find_by_type_value-answer}
use gatt.Central.Read.{attribute_value, handle_read, handle_read_blob}
use gatt.Central.Read.Branches.{handle_read-branches, handle_read_blob-branches}
use gatt.Central.Read.Static.{Holds}
use gatt.Client.Reading.{finished, read_long}
use gatt.Link.{link}
use gatt.Link.LongRead.{read_long-whole}
use gatt.Link.MtuExchange.{set_mtu-agreed}
use gatt.Client.Reading.{set_mtu}
use gatt.Client.Discovery.{service_scan, service_entry}
use gatt.Client.Discovery.Entries.{write_entries, service_scan-write_entries}
use gatt.Central.{handle_req}
use gatt.Central.Requests.{handle_req-Live}
use gatt.Central.Responses.{handle_req-Fitting}
use gatt.Central.Write.Within.{Fitting}
use gatt.Central.State.{Notifier, new_central, find_notifier, start_notify, stop_notify, stop}
use gatt.Central.State.Live.{Live, new_central-Live, start_notify-Live}
use gatt.Central.Write.{notifier_write, send_notification}
use gatt.Client.Subscriptions.{incoming, subscribe, notified}
use gatt.Link.Notification.{incoming-send_notification}
use gatt.Central.Write.Keeps.{LeavesLive, stop_notify-notifier_write}
use gatt.Profile.{Descriptor}
use gatt.AttrTable.{descriptor}
use gatt.Hci.L2cap.{receive_all, write}
use gatt.Hci.L2cap.Loopback.{Fits, acl_packets, receive_all-write}
use gatt.Adv.FieldType
use gatt.Adv.Packet.{AdvPacket, append_field, append_uuid_fit, all_fit}
use gatt.Adv.Packet.Room.{append_field-field, append_uuid_fit-fields}
use gatt.Adv.Parse.{empty, unmarshall}
use gatt.Adv.Parse.RoundTrip.{encode, apply_fields, unmarshall-encode}

-- A value longer than a response under the least MTU.
abbrev log_value : List ℕ
log_value = replicate 30 7

abbrev level : Characteristic
level = record {
  uuid = uuid16 0x2a19;
  props = char_read;
  secure = 0;
  cccd = none;
  descs = [];
  value = some log_value;
  read_handler = none;
  write_handler = none;
  notify_handler = some 1;
  h = 2;
  vh = 3;
  endh = 0;
}

abbrev battery : Service
battery = record { uuid = uuid16 0x180f; chars = level ∷ []; h = 1; endh = 0xffff }

abbrev declared_service : Attr
declared_service = record {
  h = 1;
  typ = attr_primary_service_uuid;
  props = char_read;
  secure = 0;
  value = some (put_uint16 0x180f);
  pvt = service battery;
}

abbrev declared_level : Attr
declared_level = record {
  h = 2;
  typ = attr_characteristic_uuid;
  props = char_read;
  secure = 0;
  value = some (char_read ∷ 3 ∷ 0 ∷ put_uint16 0x2a19);
  pvt = characteristic level;
}

abbrev level_value : Attr
level_value = record {
  h = 3;
  typ = uuid16 0x2a19;
  props = char_read;
  secure = 0;
  value = some log_value;
  pvt = characteristic level;
}

abbrev table : AttrRange
table = record { aa = declared_service ∷ declared_level ∷ level_value ∷ []; base = 1 }

table-IsContiguous : IsContiguous table
table-IsContiguous = (refl, (refl, (refl, tt)))

not_primary : false ≡ true → ⊥
not_primary e = cc

table-PrimariesAreServices : PrimariesAreServices table.aa
unfolding equal
table-PrimariesAreServices =
    (λ e. (battery, refl), (λ e. absurd (not_primary e), (λ e. absurd (not_primary e), tt)))

abbrev server : Central
server = record { attrs = table; mtu = 23; security = 0; notifiers = []; created = [] }

server-Holds : Holds server 3 level_value log_value
server-Holds = record {
  table = table-IsContiguous;
  small = omega arith;
  found = refl;
  static = refl;
  readable = λ op. refl;
  room = omega arith;
}

read_long-whole_example :
    read_long (link []) 31 0 server 3
    ≡ ok (finished (record { value = log_value; error = none }), server)
read_long-whole_example =
    read_long-whole [] server-Holds 31 0 (omega arith) (omega arith) (omega arith)

generate_attributes-IsContiguous_example :
    IsContiguous (generate_attributes (battery ∷ battery ∷ []) 1).0
generate_attributes-IsContiguous_example =
    generate_attributes-IsContiguous (battery ∷ battery ∷ []) 1 (omega arith)

generate_attributes-Tiles_example : Tiles 1 (generate_attributes (battery ∷ battery ∷ []) 1).1
generate_attributes-Tiles_example =
    generate_attributes-Tiles (battery ∷ battery ∷ []) 1 (omega arith)

-- The range 3 to 1 is turned round.
subrange-in_range_example : subrange table 3 1 ≡ panic
subrange-in_range_example = subrange-in_range table 3 1 table-IsContiguous

payload-Fits : Fits 27 64 4 (replicate 40 9)
payload-Fits = record {
  sends = omega arith;
  size = omega arith;
  handle = omega arith;
  channel = omega arith;
  data_channel = omega arith;
  short = omega arith;
}

receive_all-write_example :
    receive_all (1 ∷ 2 ∷ []) (acl_packets (write 27 64 4 (replicate 40 9)))
    ≡ record { buf = []; pdus = replicate 40 9 ∷ [] }
receive_all-write_example = receive_all-write 27 64 4 (replicate 40 9) (1 ∷ 2 ∷ []) payload-Fits

handle_find_by_type_value-answer_example :
    handle_find_by_type_value server
      (range_request 1 0xffff (attr_primary_service_uuid.b ++ put_uint16 0x180f) [])
    ≡ ok (Op.find_by_type_value_resp ∷ 1 ∷ 0 ∷ 0xff ∷ 0xff ∷ [])
unfolding equal
handle_find_by_type_value-answer_example =
    handle_find_by_type_value-answer server (uuid16 0x180f) 1 0xffff [] (omega arith) (omega arith)
      (omega arith) table-IsContiguous table-PrimariesAreServices (omega arith)

handle_read-branches_example :
    handle_read server (exact (put_uint16 2))
    ≡ ok (Op.read_resp ∷ char_read ∷ 3 ∷ 0 ∷ put_uint16 0x2a19)
handle_read-branches_example =
    handle_read-branches server (omega arith) (omega arith) 2 [] [] (omega arith) table-IsContiguous

handle_read_blob-branches_example :
    handle_read_blob server (exact (put_uint16 3 ++ put_uint16 22))
    ≡ ok (Op.read_blob_resp ∷ replicate 8 7)
handle_read_blob-branches_example =
    handle_read_blob-branches server (omega arith) (omega arith) 3 22 [] [] (omega arith)
      (omega arith) table-IsContiguous

-- The second write is cut after its first byte.

abbrev packet : AdvPacket
packet = record { b = replicate 26 0 }

append_field-field_example :
    append_field packet FieldType.complete_name (65 ∷ 66 ∷ 67 ∷ 68 ∷ [])
    ≡ ok (record { b = replicate 26 0 ++ (4 ∷ 9 ∷ 65 ∷ 66 ∷ 67 ∷ []) })
append_field-field_example =
    append_field-field packet FieldType.complete_name (65 ∷ 66 ∷ 67 ∷ 68 ∷ [])

-- The second UUID does not fit.
append_uuid_fit-fields_example :
    (append_uuid_fit packet (uuid16 0x180f ∷ uuid16 0x180a ∷ [])
      ≡ ok (false, record { b = replicate 26 0 ++ (3 ∷ 2 ∷ 0x0f ∷ 0x18 ∷ []) }))
    × (30 ≤ 31)
    × (false ≡ true → (uuid16 0x180f ∷ []) ≡ (uuid16 0x180f ∷ uuid16 0x180a ∷ []))
append_uuid_fit-fields_example =
    append_uuid_fit-fields packet (uuid16 0x180f ∷ uuid16 0x180a ∷ []) (inl refl, (inl refl, tt))
      (omega arith)

unmarshall-encode_example :
    unmarshall empty (encode ((FieldType.flags, 6 ∷ []) ∷ (FieldType.tx_power, []) ∷ [])) ≡ (
      apply_fields empty ((FieldType.flags, 6 ∷ []) ∷ (FieldType.tx_power, []) ∷ []) >>= λ a.
      ok (record { adv = a; valid = true }))
unmarshall-encode_example =
    unmarshall-encode empty ((FieldType.flags, 6 ∷ []) ∷ (FieldType.tx_power, []) ∷ [])
      (omega arith, (omega arith, tt))

set_mtu-agreed_example :
    (set_mtu (link []) server 0 512 ≡ ok (none, 256, record server { mtu = 256 }))
    × (23 ≤ 256)
    × (256 ≤ 256)
    × (256 ≤ 256)
set_mtu-agreed_example = set_mtu-agreed [] server 0 512 (omega arith)

-- Of two services, the second is asked for.
service_scan-write_entries_example :
    service_scan 2
      (some (uuid16 0x180f ∷ []))
      6
      (write_entries ((1, 5, put_uint16 0x1800) ∷ (6, 0xffff, put_uint16 0x180f) ∷ []))
      (record { found = []; done = false; start = 1 })
    ≡ ok
        (record { found = service_entry (put_uint16 0x180f) 6 0xffff ∷ []; done = true; start = 0 })
service_scan-write_entries_example =
    service_scan-write_entries 2 2 (some (uuid16 0x180f ∷ []))
      ((1, 5, put_uint16 0x1800) ∷ (6, 0xffff, put_uint16 0x180f) ∷ [])
      (record { found = []; done = false; start = 1 })
      ((omega arith, omega arith, refl), ((omega arith, omega arith, refl), tt)) (omega arith)

abbrev configuration : Descriptor
configuration = record {
  uuid = uuid16 0x2902;
  props = 14;
  secure = 0;
  h = 4;
  value = some (0 ∷ 0 ∷ []);
  value_str = [];
  read_handler = none;
  write_handler = none;
}

abbrev configuration_attribute : Attr
configuration_attribute = record {
  h = 4;
  typ = uuid16 0x2902;
  props = 14;
  secure = 0;
  value = some (0 ∷ 0 ∷ []);
  pvt = descriptor configuration level;
}

abbrev notifying_table : AttrRange
notifying_table = record {
  aa = declared_service ∷ declared_level ∷ level_value ∷ configuration_attribute ∷ [];
  base = 1;
}

-- The client subscribes.
handle_req-Live_example :
    Ensures LeavesLive
      (handle_req (new_central notifying_table) (exact (Op.write_req ∷ 4 ∷ 0 ∷ 1 ∷ 0 ∷ [])))
handle_req-Live_example =
    handle_req-Live (new_central notifying_table) (exact (Op.write_req ∷ 4 ∷ 0 ∷ 1 ∷ 0 ∷ []))
      (new_central-Live notifying_table)

handle_req-Fitting_example :
    Ensures Fitting
      (handle_req (new_central notifying_table) (exact (Op.write_req ∷ 4 ∷ 0 ∷ 1 ∷ 0 ∷ [])))
unfolding new_central
handle_req-Fitting_example =
    handle_req-Fitting (new_central notifying_table) (exact (Op.write_req ∷ 4 ∷ 0 ∷ 1 ∷ 0 ∷ []))
      (omega arith)

abbrev notifier : Bool → Notifier
notifier done = record { a = configuration_attribute; max_len = 20; done = done }

abbrev subscribed : Central
subscribed = record {
  attrs = notifying_table;
  mtu = 23;
  security = 0;
  notifiers = (4, 0) ∷ [];
  created = notifier false ∷ [];
}

subscribed-Live : Live subscribed
unfolding new_central find_notifier start_notify
subscribed-Live =
    start_notify-Live (new_central notifying_table) configuration_attribute 20
      (new_central-Live notifying_table)

stop_notify-notifier_write_example :
    notifier_write (stop_notify subscribed configuration_attribute) 0 (7 ∷ []) ≡ ok none
unfolding stop_notify find_notifier stop
stop_notify-notifier_write_example =
    stop_notify-notifier_write subscribed configuration_attribute 0 (notifier true) (7 ∷ [])
      subscribed-Live refl refl

incoming-send_notification_example :
    (send_notification subscribed configuration_attribute (7 ∷ 8 ∷ []) >>= λ pdu.
    incoming (subscribe [] 3 5) pdu)
    ≡ ok (notified (some (5, 7 ∷ 8 ∷ [])) [])
incoming-send_notification_example =
    incoming-send_notification subscribed configuration_attribute configuration level (7 ∷ 8 ∷ [])
      [] 5 refl (omega arith) (omega arith)
