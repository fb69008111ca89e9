-- ===== src/Central/Discovery.antt =====
-- central_linux.go: the requests by which a client discovers the attributes.
pub mod Ranges
pub mod FindInfo
pub mod Services
pub mod ByGroup
pub mod ByTypeValue
pub mod Within
use gatt.Prelude.{
  ℕ, ◌+◌, ◌%◌, List, [], ◌∷◌, ◌++◌, Bool, true, false, Option, none, some, not, Run, ok, panic,
  ◌>>=◌, Slice, slice_bytes, slice_from, uint16, exact, length, bytes_equal, ◌==◌, if◌then◌else◌,
}
use gatt.Uuid.{Uuid, len, equal}
use gatt.L2capWriter.{
  L2capWriter, new_writer, start_chunk, commit, write_fit, write_byte_fit, write_uint16_fit,
  write_uuid_fit, bytes,
}
use gatt.Att.{att_error_resp, attr_primary_service_uuid}
use gatt.Att.Op
use gatt.Att.ErrorCode
use gatt.Profile.{Service}
use gatt.AttrTable.{AttrRange, Attr, Pvt, service, characteristic, descriptor, subrange}
use gatt.Central.State.{Central}

pub read_handle_range : Slice → Run (ℕ × ℕ)
read_handle_range b = do
  start ← uint16 b.elems
  rest ← slice_from b 2
  end ← uint16 rest.elems
  ok (start, end)

-- In the loops `none` is Go's `uuidLen == -1`.
find_info_format : L2capWriter → Option ℕ → Attr → Run (ℕ × L2capWriter)
find_info_format w none a = do
  (_, w') ← write_byte_fit w (if len a.typ == 2 then 0x01 else 0x02)
  ok (len a.typ, w')
find_info_format w (some l) a = ok (l, w)

find_info_entry : L2capWriter → Attr → Run (Bool × L2capWriter)
find_info_entry w a = do
  w1 ← start_chunk w
  (_, w2) ← write_uint16_fit w1 a.h
  (_, w3) ← write_uuid_fit w2 a.typ
  commit w3

find_info_loop : L2capWriter → Option ℕ → List Attr → Run (Option ℕ × L2capWriter)
find_info_loop w uuid_len [] = ok (uuid_len, w)
find_info_loop w uuid_len (a ∷ aa) = do
  (l, w1) ← find_info_format w uuid_len a
  if not (len a.typ == l) then ok (some l, w1) else do
    (fits, w2) ← find_info_entry w1 a
    if fits then find_info_loop w2 (some l) aa else ok (some l, w2)

find_info_reply : ℕ → Option ℕ → L2capWriter → Run (List ℕ)
find_info_reply start none w = ok (att_error_resp Op.find_info_req start ErrorCode.attr_not_found)
find_info_reply start (some l) w = bytes w

pub handle_find_info : Central → Slice → Run (List ℕ)
handle_find_info c b = do
  r ← slice_bytes b 0 4
  (start, end) ← read_handle_range (exact r)
  (_, w) ← write_byte_fit (new_writer c.mtu) Op.find_info_resp
  aa ← subrange c.attrs start end
  (l, w') ← find_info_loop w none aa
  find_info_reply start l w'

-- `a.value` as UUID bytes: bytes.Equal reads nil as empty.
abbrev pub value_bytes : Attr → List ℕ
value_bytes a = elim a.value [ none ↦ [] | some v ↦ v ]

-- `a.pvt.(*Service)`
abbrev pub as_service : Pvt → Run Service
as_service (service s) = ok s
as_service (characteristic c) = panic
as_service (descriptor d c) = panic

find_by_type_value_entry : L2capWriter → Attr → Run (Bool × L2capWriter)
find_by_type_value_entry w a = do
  s ← as_service a.pvt
  w1 ← start_chunk w
  (_, w2) ← write_uint16_fit w1 s.h
  (_, w3) ← write_uint16_fit w2 s.endh
  commit w3

find_by_type_value_loop : Uuid → L2capWriter → Bool → List Attr → Run (Bool × L2capWriter)
find_by_type_value_loop u w wrote [] = ok (wrote, w)
find_by_type_value_loop u w wrote (a ∷ aa) =
    let rest = find_by_type_value_loop u w wrote aa in
    if not (equal a.typ attr_primary_service_uuid)
    then rest
    else (if not (bytes_equal (value_bytes a) u.b) then rest else do
      (fits, w') ← find_by_type_value_entry w a
      if fits then find_by_type_value_loop u w' true aa else ok (wrote, w'))

find_by_type_value_reply : ℕ → Bool → L2capWriter → Run (List ℕ)
find_by_type_value_reply start false w =
    ok (att_error_resp Op.find_by_type_value_req start ErrorCode.attr_not_found)
find_by_type_value_reply start true w = bytes w

pub handle_find_by_type_value : Central → Slice → Run (List ℕ)
handle_find_by_type_value c b = do
  r ← slice_bytes b 0 4
  (start, end) ← read_handle_range (exact r)
  t ← slice_bytes b 4 6
  u ← slice_from b 6
  if not (equal (record { b = t }) attr_primary_service_uuid)
      then ok (att_error_resp Op.find_by_type_value_req start ErrorCode.attr_not_found)
      else do
        (_, w) ← write_byte_fit (new_writer c.mtu) Op.find_by_type_value_resp
        aa ← subrange c.attrs start end
        (wrote, w') ← find_by_type_value_loop (record { b = u.elems }) w false aa
        find_by_type_value_reply start wrote w'

-- `byte(uuidLen + 4)`
by_group_length : L2capWriter → Option ℕ → Attr → Run (ℕ × L2capWriter)
by_group_length w none a = do
  (_, w') ← write_byte_fit w ((length (value_bytes a) + 4) % 256)
  ok (length (value_bytes a), w')
by_group_length w (some l) a = ok (l, w)

by_group_entry : L2capWriter → Attr → Run (Bool × L2capWriter)
by_group_entry w a = do
  s ← as_service a.pvt
  w1 ← start_chunk w
  (_, w2) ← write_uint16_fit w1 s.h
  (_, w3) ← write_uint16_fit w2 s.endh
  (_, w4) ← write_fit w3 (value_bytes a)
  commit w4

by_group_loop : L2capWriter → Option ℕ → List Attr → Run (Option ℕ × L2capWriter)
by_group_loop w uuid_len [] = ok (uuid_len, w)
by_group_loop w uuid_len (a ∷ aa) =
    let rest = by_group_loop w uuid_len aa in
    if not (equal a.typ attr_primary_service_uuid) then rest else do
      (l, w1) ← by_group_length w uuid_len a
      if not (l == length (value_bytes a)) then ok (some l, w1) else do
        (fits, w2) ← by_group_entry w1 a
        if fits then by_group_loop w2 (some l) aa else ok (some l, w2)

by_group_reply : ℕ → Option ℕ → L2capWriter → Run (List ℕ)
by_group_reply start none w =
    ok (att_error_resp Op.read_by_group_req start ErrorCode.attr_not_found)
by_group_reply start (some l) w = bytes w

pub handle_read_by_group : Central → Slice → Run (List ℕ)
handle_read_by_group c b = do
  (start, end) ← read_handle_range b
  t ← slice_from b 4
  if not (equal (record { b = t.elems }) attr_primary_service_uuid)
      then ok (att_error_resp Op.read_by_group_req start ErrorCode.unsupp_grp_type)
      else do
        (_, w) ← write_byte_fit (new_writer c.mtu) Op.read_by_group_resp
        aa ← subrange c.attrs start end
        (l, w') ← by_group_loop w none aa
        by_group_reply start l w'
