-- ===== src/Central/Discovery/Services.antt =====
-- The primary service declarations of a table, as the discovery requests see them.
use gatt.Prelude.{
  ℕ, ◌≡◌, List, [], ◌∷◌, ◌++◌, Bool, true, put_uint16, leb, ◌&&◌, if◌then◌else◌, Bool-cases, inl,
  inr,
}
use gatt.Uuid.{equal}
use gatt.Att.{attr_primary_service_uuid}
use gatt.Profile.{Service}
use gatt.AttrTable.{Attr, Pvt, service, characteristic, descriptor}
use gatt.AttrTable.Lookup.{in_range}

abbrev pub is_primary : Attr → Bool
is_primary a = equal a.typ attr_primary_service_uuid

abbrev pub primaries : List Attr → List Attr
primaries [] = []
primaries (a ∷ aa) = if is_primary a then a ∷ primaries aa else primaries aa

-- Every attribute of the type Primary Service stands for a service, as generateAttributes has it
-- where no characteristic or descriptor uses that UUID.
abbrev pub PrimariesAreServices : List Attr → Type 0
PrimariesAreServices [] = Unit
PrimariesAreServices (a ∷ aa) =
    (is_primary a ≡ true → (s : Service) × (a.pvt ≡ service s)) × PrimariesAreServices aa

-- The range of handles of the service that an attribute stands for.
abbrev pub group_range : Pvt → List ℕ
group_range (service s) = put_uint16 s.h ++ put_uint16 s.endh
group_range (characteristic c) = []
group_range (descriptor d c) = []

pub in_range-PrimariesAreServices :
    (start end : ℕ) (aa : List Attr)
    → PrimariesAreServices aa
    → PrimariesAreServices (in_range start end aa)
in_range-PrimariesAreServices start end [] h = tt
in_range-PrimariesAreServices start end (a ∷ aa) h =
    elim (Bool-cases (leb start a.h && leb a.h end)) [
      | inl e ↦ rw e (h.0, in_range-PrimariesAreServices start end aa h.1)
      | inr e ↦ rw e (in_range-PrimariesAreServices start end aa h.1)
    ]
