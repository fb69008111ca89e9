-- ===== src/Adv/Packet.antt =====
-- adv.go: AdvPacket, which builds advertising and scan response data of at most 31 bytes.
pub mod Room
use gatt.Prelude.{
  ℕ, ◌+◌, ◌-◌, ◌%◌, ◌/◌, ◌≤◌, List, [], ◌∷◌, ◌++◌, Bool, true, false, not, ◌&&◌, ◌||◌, Run, ok,
  panic, ◌>>=◌, length, take, replicate, ltb, leb, ◌==◌, if◌then◌else◌,
}
use gatt.Uuid.{Uuid, len, equal}
use gatt.Att.{attr_gap_uuid, attr_gatt_uuid}
use gatt.Adv.FieldType

abbrev pub max_eir_packet_length : ℕ
max_eir_packet_length = 31

pub record AdvPacket : Type 0 where
  pub b : List ℕ

-- Bytes: an array of 31 bytes.
unfoldable pub bytes : AdvPacket → List ℕ
bytes a = take 31 (a.b ++ replicate (31 - length a.b) 0)

unfoldable pub packet_length : AdvPacket → ℕ
packet_length a = if ltb 31 (length a.b) then 31 else length a.b

-- AppendField. Where the packet has no room for the two bytes of a field's head, the slice expression
-- has a negative bound and panics.
unfoldable pub append_field : AdvPacket → ℕ → List ℕ → Run AdvPacket
append_field a typ b =
    if ltb max_eir_packet_length (length a.b + 2 + length b)
    then (if ltb max_eir_packet_length (length a.b + 2)
        then panic
        else (let b' = take (max_eir_packet_length - length a.b - 2) b in
            ok (record { b = a.b ++ ((length b' + 1) % 256 ∷ typ ∷ b') })))
    else ok (record { b = a.b ++ ((length b + 1) % 256 ∷ typ ∷ b) })

unfoldable pub append_flags : AdvPacket → ℕ → Run AdvPacket
append_flags a f = append_field a FieldType.flags (f ∷ [])

unfoldable pub append_name : AdvPacket → List ℕ → Run AdvPacket
append_name a n =
    let typ =
      if ltb max_eir_packet_length (length a.b + 2 + length n)
      then FieldType.short_name
      else FieldType.complete_name in
    append_field a typ n

unfoldable pub append_manufacturer_data : AdvPacket → ℕ → List ℕ → Run AdvPacket
append_manufacturer_data a id b =
    append_field a FieldType.manufacturer_data (id % 256 ∷ (id / 256 % 256) ∷ b)

abbrev pub is_generic : Uuid → Bool
is_generic u = equal u attr_gap_uuid || equal u attr_gatt_uuid

-- The first loop of AppendUUIDFit: whether all fit behind `l` bytes.
unfoldable pub all_fit : ℕ → List Uuid → Bool
all_fit l [] = true
all_fit l (u ∷ uu) =
    if is_generic u
    then all_fit l uu
    else (let rest = all_fit (l + (2 + len u)) uu in
        if ltb max_eir_packet_length (l + (2 + len u)) then false else rest)

append_one : AdvPacket → Bool → Uuid → Run AdvPacket
append_one a fit u =
    if len u == 2 && fit
    then append_field a FieldType.all_uuid16 u.b
    else if len u == 16 && fit
    then append_field a FieldType.all_uuid128 u.b
    else if len u == 2 && not fit
    then append_field a FieldType.some_uuid16 u.b
    else if len u == 16 && not fit
    then append_field a FieldType.some_uuid128 u.b
    else ok a

-- The second loop: fields until one does not fit.
append_until : AdvPacket → Bool → List Uuid → Run AdvPacket
append_until a fit [] = ok a
append_until a fit (u ∷ uu) =
    let skip = append_until a fit uu in
    if is_generic u
    then skip
    else (if ltb max_eir_packet_length (length a.b + 2 + len u)
        then ok a
        else do a' ← append_one a fit u; append_until a' fit uu)

pub append_uuid_fit : AdvPacket → List Uuid → Run (Bool × AdvPacket)
append_uuid_fit a uu = do
  a' ← append_until a (all_fit (length a.b) uu) uu
  ok (all_fit (length a.b) uu, a')
