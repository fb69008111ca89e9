-- ===== src/Android/GattServer/Opening.antt =====
-- android/jni/gatt_server.go and android/jni/advertising.go: how the server is opened and what it
-- indexes of its services.
pub mod Texts
use gatt.Prelude.{
  ℕ, ◌+◌, ◌/◌, ◌%◌, List, [], ◌∷◌, ◌++◌, Bool, Option, none, some, length, take, drop, bit_and,
  bit_or, ◌==◌, ltb, if◌then◌else◌,
}
use mathlib.Core.List.{reverse}
use gatt.Uuid.{Uuid}
use gatt.Uuid.Text.{hex, string}
use gatt.Profile.{Service, Characteristic, Descriptor, char_read, char_write, char_write_nr}
use gatt.Android.Maps.{Text, store}
use gatt.Android.GattServer.{GattServer}

-- "-0000-1000-8000-00805f9b34fb"
abbrev pub base_suffix : Text
base_suffix =
    45 ∷ 48 ∷ 48 ∷ 48 ∷ 48 ∷ 45 ∷ 49 ∷ 48 ∷ 48 ∷ 48 ∷ 45 ∷ 56 ∷ 48 ∷ 48 ∷ 48 ∷ 45 ∷ 48 ∷ 48 ∷ 56
    ∷ 48 ∷ 53 ∷ 102 ∷ 57 ∷ 98 ∷ 51 ∷ 52 ∷ 102 ∷ 98 ∷ []

-- The dashed form of 16 bytes, the most significant first.
unfoldable pub dashed : List ℕ → Text
unfolding hex
dashed be =
    hex (take 4 be)
    ++ (45
        ∷ (hex (take 2 (drop 4 be))
            ++ (45
                ∷ (hex (take 2 (drop 6 be))
                    ++ (45 ∷ (hex (take 2 (drop 8 be)) ++ (45 ∷ hex (drop 10 be))))))))

-- formatUUIDForJava; where the length is neither 2 nor 16, String of the UUID.
unfoldable pub format_uuid_for_java : Uuid → Text
unfolding hex dashed string
format_uuid_for_java u =
    if length u.b == 2
    then 48 ∷ 48 ∷ 48 ∷ 48 ∷ hex (reverse u.b) ++ base_suffix
    else if length u.b == 16
    then dashed (reverse u.b)
    else string u

-- propsToPermissions
unfoldable pub props_to_permissions : ℕ → ℕ
props_to_permissions p =
    bit_or (if bit_and p char_read == 0 then 0 else 1)
      (if bit_and p (bit_or char_write char_write_nr) == 0 then 0 else 16)

index_descs : List (Text × Descriptor) → List Descriptor → List (Text × Descriptor)
unfolding store format_uuid_for_java
index_descs m [] = m
index_descs m (d ∷ ds) = index_descs (store m (format_uuid_for_java d.uuid) d) ds

-- What Java makes of a characteristic that is created and added to its service: the global reference
-- to the object, or `none` where this fails. And whether it adds a service.
pub record JavaSide : Type 0 where
  pub create : Characteristic → Option ℕ
  pub add_service : Service → Bool

-- The characteristics of addServiceToGattServer.
unfoldable pub index_chars : JavaSide → GattServer → List Characteristic → GattServer
unfolding store format_uuid_for_java index_descs
index_chars j gs [] = gs
index_chars j gs (c ∷ cs) = elim (j.create c) [
  | none ↦ index_chars j gs cs
  | some obj ↦
      let uuid = format_uuid_for_java c.uuid in
      index_chars j
        (record gs {
          char_by_uuid = store gs.char_by_uuid uuid c;
          char_obj_by_uuid = store gs.char_obj_by_uuid uuid obj;
          desc_by_uuid = index_descs gs.desc_by_uuid c.descs;
        })
        cs
]

-- addServiceToGattServer for one service after another, which ends at the first that is refused.
unfoldable pub add_services : JavaSide → GattServer → List Service → Option GattServer
unfolding index_chars
add_services j gs [] = some gs
add_services j gs (svc ∷ svcs) =
    let rest = add_services j (index_chars j gs svc.chars) svcs in
    if j.add_service svc then rest else none

unfoldable pub new_gatt_server : GattServer
new_gatt_server = record {
  char_by_uuid = [];
  desc_by_uuid = [];
  char_obj_by_uuid = [];
  centrals = [];
  notifiers = [];
  made_centrals = [];
  made_notifiers = [];
}

pub data OpenResult : Type 0 where
  no_services open_failed : OpenResult
  opened : GattServer → OpenResult

unfoldable pub of_services : Option GattServer → OpenResult
of_services none = open_failed
of_services (some gs) = opened gs

-- openGattServer; `server` says whether Java opens its server.
unfoldable pub open_gatt_server : JavaSide → Bool → List Service → OpenResult
unfolding add_services new_gatt_server of_services
open_gatt_server j server [] = no_services
open_gatt_server j server (svc ∷ svcs) =
    if server then of_services (add_services j new_gatt_server (svc ∷ svcs)) else open_failed
