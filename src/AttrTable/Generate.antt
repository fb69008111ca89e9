-- ===== src/AttrTable/Generate.antt =====
-- attr.go, generateAttributes and below. Go writes the handles into the objects of the application;
-- here the objects come back with them, and the attributes point to the objects that have them.
use gatt.Prelude.{ℕ, ◌+◌, ◌%◌, ◌/◌, List, [], ◌∷◌, ◌++◌, Bool, true, false, Option, some}
use gatt.Prelude.{if◌then◌else◌}
use gatt.Att.{attr_primary_service_uuid, attr_characteristic_uuid}
use gatt.Profile.{Service, Characteristic, Descriptor, char_read}
use gatt.AttrTable.{Attr, AttrRange, service, characteristic, descriptor}

-- A handle is a uint16.
abbrev pub wrap16 : ℕ → ℕ
wrap16 n = n % 65536

-- The descriptors with their handles, and the next free handle.
unfoldable pub place_descriptors : List Descriptor → ℕ → List Descriptor × ℕ
place_descriptors [] h = ([], h)
place_descriptors (d ∷ ds) h =
    let (ds', h') = place_descriptors ds (wrap16 (h + 1)) in (record d { h = h } ∷ ds', h')

-- `len(d.valueStr) > 0` prefers the string.
descriptor_value : Descriptor → List ℕ → Option (List ℕ)
descriptor_value d [] = d.value
descriptor_value d (x ∷ xs) = some (x ∷ xs)

unfoldable pub generate_desc_attributes : Characteristic → Descriptor → Attr
unfolding descriptor_value
generate_desc_attributes c d = record {
  h = d.h;
  typ = d.uuid;
  props = d.props;
  secure = 0;
  value = descriptor_value d d.value_str;
  pvt = descriptor d c;
}

unfoldable pub desc_attributes : Characteristic → List Descriptor → List Attr
unfolding generate_desc_attributes
desc_attributes c [] = []
desc_attributes c (d ∷ ds) = generate_desc_attributes c d ∷ desc_attributes c ds

abbrev pub declaration : Characteristic → Attr
declaration c = record {
  h = c.h;
  typ = attr_characteristic_uuid;
  props = c.props;
  secure = 0;
  value = some (c.props % 256 ∷ c.vh % 256 ∷ (c.vh / 256 % 256) ∷ c.uuid.b);
  pvt = characteristic c;
}

abbrev pub value_attribute : Characteristic → Attr
value_attribute c = record {
  h = c.vh;
  typ = c.uuid;
  props = c.props;
  secure = 0;
  value = c.value;
  pvt = characteristic c;
}

unfoldable pub generate_char_attributes : Characteristic → ℕ → ℕ × Characteristic × List Attr
unfolding place_descriptors desc_attributes
generate_char_attributes c h =
    let (ds, h') = place_descriptors c.descs (wrap16 (h + 2)) in
    let c' : Characteristic = record c { h = h; vh = wrap16 (h + 1); descs = ds } in
    (h', c', declaration c' ∷ value_attribute c' ∷ desc_attributes c' ds)

unfoldable pub generate_chars : List Characteristic → ℕ → ℕ × List Characteristic × List Attr
unfolding generate_char_attributes
generate_chars [] h = (h, [], [])
generate_chars (c ∷ cs) h =
    let (h', c', a) = generate_char_attributes c h in
    let (h'', cs', aa) = generate_chars cs h' in (h'', c' ∷ cs', a ++ aa)

abbrev service_declaration : Service → Attr
service_declaration s = record {
  h = s.h;
  typ = attr_primary_service_uuid;
  props = char_read;
  secure = 0;
  value = some s.uuid.b;
  pvt = service s;
}

-- `s.endh = h - 1` on uint16 is `h + 65535` wrapped.
unfoldable pub generate_service_attributes : Service → ℕ → Bool → ℕ × Service × List Attr
unfolding generate_chars
generate_service_attributes s h last =
    let (h', cs, aa) = generate_chars s.chars (wrap16 (h + 1)) in
    let endh = if last then 0xffff else wrap16 (h' + 65535) in
    let s' : Service = record s { chars = cs; h = h; endh = endh } in
    (if last then 0xffff else h', s', service_declaration s' ∷ aa)

abbrev pub is_last : List Service → Bool
is_last [] = true
is_last (s ∷ ss) = false

-- The services are distinct objects: of one *Service given twice, the code would overwrite the handles.
unfoldable pub generate_services : List Service → ℕ → List Service × List Attr
unfolding generate_service_attributes
generate_services [] h = ([], [])
generate_services (s ∷ ss) h =
    let (h', s', a) = generate_service_attributes s h (is_last ss) in
    let (ss', aa) = generate_services ss h' in (s' ∷ ss', a ++ aa)

-- The table, and the services with their handles.
unfoldable pub generate_attributes : List Service → ℕ → AttrRange × List Service
unfolding generate_services
generate_attributes services base =
    let (ss, aa) = generate_services services base in (record { aa = aa; base = base }, ss)
