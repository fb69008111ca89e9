-- ===== src/Central/Discovery/FindInfo.antt =====
-- What handleFindInfo answers, as a function of the attributes in the range.
use gatt.Prelude.{ℕ, ◌-◌, List, [], ◌∷◌, ◌++◌, map, put_uint16, length, ◌==◌, if◌then◌else◌}
use gatt.Att.{att_error_resp}
use gatt.Att.Op
use gatt.Att.ErrorCode
use gatt.L2capWriter.Chunks.{pack}
use gatt.AttrTable.{Attr}
use gatt.Central.State.{Central}

-- The entry of an attribute: its handle and its type.
abbrev pub info_entry : Attr → List ℕ
info_entry a = put_uint16 a.h ++ a.typ.b

-- The longest prefix whose types are `l` bytes long.
abbrev pub same_format : ℕ → List Attr → List Attr
same_format l [] = []
same_format l (a ∷ aa) = if length a.typ.b == l then a ∷ same_format l aa else []

-- The answer to a request for the range, from the attributes in it.
abbrev pub find_info_answer : ℕ → ℕ → List Attr → List ℕ
find_info_answer m start [] = att_error_resp Op.find_info_req start ErrorCode.attr_not_found
find_info_answer m start (a ∷ aa) =
    Op.find_info_resp
    ∷ (if length a.typ.b == 2 then 0x01 else 0x02)
    ∷ pack (m - 2) (map info_entry (same_format (length a.typ.b) (a ∷ aa)))

abbrev format_byte : Attr → ℕ
format_byte a = if length a.typ.b == 2 then 0x01 else 0x02
