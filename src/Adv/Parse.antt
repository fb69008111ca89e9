-- ===== src/Adv/Parse.antt =====
-- adv.go: Advertisement, parsed from a sequence of fields.
pub mod RoundTrip
use gatt.Prelude.{
  ℕ, zero, suc, ◌+◌, ◌-◌, ◌*◌, ◌%◌, ◌≤◌, List, [], ◌∷◌, ◌++◌, Bool, true, false, not, ◌&&◌, ◌||◌,
  Option, none, some, Run, ok, panic, ◌>>=◌, index, length, take, drop, ltb, leb, ◌==◌,
  if◌then◌else◌,
}
use gatt.Uuid.{Uuid}
use gatt.Adv.FieldType

pub record ServiceData : Type 0 where
  pub uuid : Uuid
  pub content : List ℕ

-- The company's name, which is looked up by the company's identifier, is left out.
pub record Advertisement : Type 0 where
  pub local_name : List ℕ
  pub flags : ℕ
  pub company_id : ℕ
  pub manufacturer_data : List ℕ
  pub service_data : List ServiceData
  pub services : List Uuid
  pub tx_power_level : ℕ
  pub solicited_service : List Uuid
  pub raw : List ℕ

abbrev pub empty : Advertisement
empty = record {
  local_name = [];
  flags = 0;
  company_id = 0;
  manufacturer_data = [];
  service_data = [];
  services = [];
  tx_power_level = 0;
  solicited_service = [];
  raw = [];
}

-- The pieces of `w` bytes; `none` where the last is short.
pieces : ℕ → ℕ → List ℕ → Option (List Uuid)
pieces zero w d = some []
pieces (suc fuel) w [] = some []
pieces (suc fuel) w (x ∷ d) =
    let rest = pieces fuel w (drop w (x ∷ d)) in
    if ltb (length (x ∷ d)) w
    then none
    else elim rest [ none ↦ none | some us ↦ some (record { b = take w (x ∷ d) } ∷ us) ]

-- uuidList: a short last piece makes `d[w:]` panic; the deferred function recovers, and the result is
-- the nil slice, without the UUIDs that `u` held.
unfoldable pub uuid_list : List Uuid → List ℕ → ℕ → List Uuid
unfolding pieces
uuid_list u d w = elim (pieces (length d) w d) [ none ↦ [] | some us ↦ u ++ us ]

-- serviceDataList: the copy starts at `d[2:]` whatever `w`.
unfoldable pub service_data_list : List ServiceData → List ℕ → ℕ → Run (List ServiceData)
service_data_list sd d w =
    if ltb (length d) w
    then panic
    else ok (
        sd
        ++ (record { uuid = record { b = take w d }; content = take (length d - w) (drop 2 d) }
            ∷ []))

unfoldable pub zero_truncate : List ℕ → List ℕ
zero_truncate [] = []
zero_truncate (x ∷ b) = if x == 0 then [] else x ∷ zero_truncate b

manufacturer : Advertisement → List ℕ → Advertisement
manufacturer a [] = record a { manufacturer_data = [] }
manufacturer a (x ∷ []) = record a { manufacturer_data = x ∷ [] }
manufacturer a (x ∷ y ∷ d) = record a { manufacturer_data = x ∷ y ∷ d; company_id = x + y * 256 }

-- The switch on the type of a field.
unfoldable pub apply_field : Advertisement → ℕ → List ℕ → Run Advertisement
unfolding manufacturer
apply_field a t d =
    if t == FieldType.flags
    then (do f ← index d 0; ok (record a { flags = f }))
    else if t == FieldType.some_uuid16 || t == FieldType.all_uuid16
    then ok (record a { services = uuid_list a.services d 2 })
    else if t == FieldType.some_uuid32 || t == FieldType.all_uuid32
    then ok (record a { services = uuid_list a.services d 4 })
    else if t == FieldType.some_uuid128 || t == FieldType.all_uuid128
    then ok (record a { services = uuid_list a.services d 16 })
    else if t == FieldType.short_name || t == FieldType.complete_name
    then ok (record a { local_name = zero_truncate d })
    else if t == FieldType.tx_power
    then (do p ← index d 0; ok (record a { tx_power_level = p }))
    else if t == FieldType.service_sol16
    then ok (record a { solicited_service = uuid_list a.solicited_service d 2 })
    else if t == FieldType.service_sol128
    then ok (record a { solicited_service = uuid_list a.solicited_service d 16 })
    else if t == FieldType.service_sol32
    then ok (record a { solicited_service = uuid_list a.solicited_service d 4 })
    else if t == FieldType.manufacturer_data
    then ok (manufacturer a d)
    else if t == FieldType.service_data16
    then (do sd ← service_data_list a.service_data d 2; ok (record a { service_data = sd }))
    else if t == FieldType.service_data32
    then (do sd ← service_data_list a.service_data d 4; ok (record a { service_data = sd }))
    else if t == FieldType.service_data128
    then (do sd ← service_data_list a.service_data d 16; ok (record a { service_data = sd }))
    else ok a

-- The result of parsing: the advertisement as far as it was filled, and whether the error was
-- returned.
pub record Parsed : Type 0 where
  pub adv : Advertisement
  pub valid : Bool

-- The loop of unmarshall. Each round takes at least one byte or panics, so the length is fuel enough.
-- `1 + l` is computed on bytes; where it wraps to 0, `b[2:1+l]` panics.
unmarshall_loop : ℕ → Advertisement → List ℕ → Run Parsed
unmarshall_loop zero a b = ok (record { adv = a; valid = true })
unmarshall_loop (suc fuel) a [] = ok (record { adv = a; valid = true })
unmarshall_loop (suc fuel) a (l ∷ []) = ok (record { adv = a; valid = false })
unmarshall_loop (suc fuel) a (l ∷ t ∷ rest) =
    let end = (1 + l) % 256 in
    if ltb l 1 || ltb (length (l ∷ t ∷ rest)) end
    then ok (record { adv = a; valid = false })
    else (if ltb end 2 then panic else do
      let d = take (end - 2) rest
      a' ← apply_field (record a { raw = d }) t d
      unmarshall_loop fuel a' (drop (end - 2) rest))

pub unmarshall : Advertisement → List ℕ → Run Parsed
unmarshall a b = unmarshall_loop (length b) a b
