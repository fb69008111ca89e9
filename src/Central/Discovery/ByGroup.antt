-- ===== src/Central/Discovery/ByGroup.antt =====
-- What handleReadByGroup answers to a request for the primary services of a range.
use gatt.Prelude.{ℕ, ◌+◌, ◌-◌, ◌%◌, List, [], ◌∷◌, ◌++◌, map, length, ◌==◌, if◌then◌else◌}
use gatt.Att.{att_error_resp}
use gatt.Att.Op
use gatt.Att.ErrorCode
use gatt.L2capWriter.Chunks.{pack}
use gatt.AttrTable.{Attr}
use gatt.Central.State.{Central}
use gatt.Central.Discovery.{value_bytes}
use gatt.Central.Discovery.Services.{group_range}

-- The entry of a service: its range of handles and its UUID.
abbrev pub group_entry : Attr → List ℕ
group_entry a = group_range a.pvt ++ value_bytes a

-- The longest prefix whose values are `l` bytes long.
abbrev pub same_length : ℕ → List Attr → List Attr
same_length l [] = []
same_length l (a ∷ aa) = if l == length (value_bytes a) then a ∷ same_length l aa else []

-- The answer, from the primary services in the range.
abbrev pub by_group_answer : ℕ → ℕ → List Attr → List ℕ
by_group_answer m start [] = att_error_resp Op.read_by_group_req start ErrorCode.attr_not_found
by_group_answer m start (a ∷ aa) =
    let l = length (value_bytes a) in
    Op.read_by_group_resp
    ∷ ((l + 4) % 256)
    ∷ pack (m - 2) (map group_entry (same_length l (a ∷ aa)))
