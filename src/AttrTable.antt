-- ===== src/AttrTable.antt =====
-- attr.go: the attribute table, the lookups in it, and its generation from the services.
pub mod Generate
pub mod Lookup
pub mod Handles
use gatt.Prelude.{
  ℕ, zero, suc, ◌+◌, ◌-◌, ◌%◌, ◌/◌, ◌≤◌, ◌<◌, List, [], ◌∷◌, ◌++◌, Bool, true, false, Option, none,
  some, Run, ok, panic, length, take, drop, get_elem?, ltb, leb, ◌==◌, ◌&&◌, if◌then◌else◌,
  from_option,
}
use gatt.Uuid.{Uuid}
use gatt.Att.{attr_primary_service_uuid, attr_characteristic_uuid}
use gatt.Profile.{Service, Characteristic, Descriptor, char_read}

-- `pvt` points to the object that the attribute stands for; of a descriptor also to its `char`.
pub data Pvt : Type 0 where
  service : Service → Pvt
  characteristic : Characteristic → Pvt
  descriptor : Descriptor → Characteristic → Pvt

pub record Attr : Type 0 where
  pub h : ℕ
  pub typ : Uuid
  pub props : ℕ
  pub secure : ℕ
  pub value : Option (List ℕ)
  pub pvt : Pvt

pub record AttrRange : Type 0 where
  pub aa : List Attr
  pub base : ℕ

-- idx answers -1 and -2 out of range.
pub data Idx : Type 0 where
  too_small too_large : Idx
  at : ℕ → Idx

unfoldable pub idx : AttrRange → ℕ → Idx
idx r h =
    if ltb h r.base
    then too_small
    else (if leb (r.base + length r.aa) h then too_large else at (h - r.base))

-- At. `none` is Go's `ok == false`.
at_idx : AttrRange → Idx → Run (Option Attr)
at_idx r too_small = ok none
at_idx r too_large = ok none
at_idx r (at i) = elim (get_elem? r.aa i) [ none ↦ panic | some a ↦ ok (some a) ]

unfoldable pub at_handle : AttrRange → ℕ → Run (Option Attr)
unfolding at_idx idx
at_handle r h = at_idx r (idx r h)

-- `r.aa[i:j]` panics where `i` is past `j`.
slice_aa : AttrRange → ℕ → ℕ → Run (List Attr)
slice_aa r i j = if leb i j && leb j (length r.aa) then ok (take (j - i) (drop i r.aa)) else panic

subrange_end : AttrRange → ℕ → Idx → Run (List Attr)
unfolding slice_aa
subrange_end r i too_small = ok []
subrange_end r i too_large = slice_aa r i (length r.aa)
subrange_end r i (at j) = slice_aa r i j

subrange_start : AttrRange → Idx → Idx → Run (List Attr)
unfolding subrange_end
subrange_start r too_small e = subrange_end r 0 e
subrange_start r too_large e = ok []
subrange_start r (at i) e = subrange_end r i e

unfoldable pub subrange : AttrRange → ℕ → ℕ → Run (List Attr)
unfolding subrange_start idx
subrange r start end = subrange_start r (idx r start) (idx r (end + 1))
