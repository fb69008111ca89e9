-- ===== src/Central/Discovery/Ranges.antt =====
-- The handle range at the head of a request.
use gatt.Prelude.{
  ℕ, ◌+◌, ◌*◌, ◌%◌, ◌/◌, ◌≤◌, ◌<◌, ◌≡◌, refl, List, ◌++◌, arith, ok, Slice, slice_bytes, put_uint16,
  length, le→leb, le→ltb,
}
use gatt.Central.Discovery.{read_handle_range}
use gatt.AttrTable.{AttrRange, subrange}
use gatt.AttrTable.Lookup.{IsContiguous, in_range, subrange-in_range}

-- A request whose parameters begin with a range of handles.
abbrev pub range_request : ℕ → ℕ → List ℕ → List ℕ → Slice
range_request start end rest spare = record {
  elems = put_uint16 start ++ put_uint16 end ++ rest;
  spare = spare;
}

pub range_head :
    (start end : ℕ) (rest spare : List ℕ)
    → slice_bytes (range_request start end rest spare) 0 4 ≡ ok (put_uint16 start ++ put_uint16 end)
range_head start end rest spare =
    rw (le→leb 4 (length (put_uint16 start ++ put_uint16 end ++ rest ++ spare)) (omega arith)) refl

pub bytes_of_uint16 : (v : ℕ) → v < 65536 → v % 256 + v / 256 % 256 * 256 ≡ v
bytes_of_uint16 v h = omega arith

pub read_handle_range-request :
    (start end : ℕ) (rest spare : List ℕ)
    → start < 65536
    → end < 65536
    → read_handle_range (range_request start end rest spare) ≡ ok (start, end)
unfolding read_handle_range
read_handle_range-request start end rest spare hs he =
    rw
      (
        bytes_of_uint16 start hs,
        le→leb 2 (length (put_uint16 start ++ put_uint16 end ++ rest)) (omega arith),
        bytes_of_uint16 end he,
      )
      refl

-- A range that is not turned round does not panic.
pub subrange_ordered :
    (r : AttrRange) (start end : ℕ)
    → IsContiguous r
    → start ≤ end + 1
    → subrange r start end ≡ ok (in_range start end r.aa)
subrange_ordered r start end c h =
    rw (subrange-in_range r start end c, le→ltb (end + 1) start h) refl
