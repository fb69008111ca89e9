-- ===== src/Adv/Packet/Room.antt =====
-- What fits in a packet of 31 bytes.
use gatt.Prelude.{
  ℕ, ◌+◌, ◌-◌, ◌%◌, ◌≤◌, ◌≡◌, refl, ap, ◌∙◌, List, [], ◌∷◌, ◌++◌, Bool, true, false, arith, ok,
  panic, length, length-append, take, take_all, ltb, ltb→le, le→ltb, ◌==◌, if◌then◌else◌, leb,
  le→leb, leb→le, sym, bytes_equal, ◌||◌, Bool-cases, inl, inr, append_assoc, append-nil, ◌⊎◌,
}
use gatt.Uuid.{Uuid, len, equal}
use gatt.Adv.FieldType
use gatt.Adv.Packet.{
  AdvPacket, append_field, append_uuid_fit, append_until, append_one, all_fit, is_generic,
}

-- A field: its length, its type and its content.
abbrev pub field : ℕ → List ℕ → List ℕ
field t d = (length d + 1) % 256 ∷ t ∷ d

-- AppendField on every packet: it panics where there is no room for a field's head, that is behind
-- 29 bytes; otherwise it appends a field with as much of the content as there is room for.
pub append_field-field :
    (a : AdvPacket) (t : ℕ) (d : List ℕ)
    → append_field a t d ≡ (
        if ltb 29 (length a.b)
        then panic
        else ok (record { b = a.b ++ field t (take (29 - length a.b) d) }))
unfolding append_field
append_field-field a t d = elim (Bool-cases (ltb 31 (length a.b + 2 + length d))) [
  | inl over ↦ elim (Bool-cases (ltb 31 (length a.b + 2))) [
    | inl full ↦
        let no_head : ltb 29 (length a.b) ≡ true = ground arith in rw (over, full, no_head) refl
    | inr head ↦
        let some_head : ltb 29 (length a.b) ≡ false = ground arith in
        let room : 31 - length a.b - 2 ≡ 29 - length a.b = omega arith in
        rw (over, head, some_head, room) refl
  ]
  | inr fits ↦
      let small = ltb→le _ _ fits in
      let some_head : ltb 29 (length a.b) ≡ false = ground arith in
      rw (fits, some_head, take_all (29 - length a.b) d (omega arith)) refl
]

-- Where the whole content fits.
pub append_field_fits :
    (a : AdvPacket) (t : ℕ) (d : List ℕ)
    → length a.b + 2 + length d ≤ 31
    → append_field a t d ≡ ok (record { b = a.b ++ field t d })
append_field_fits a t d h =
    let head : ltb 29 (length a.b) ≡ false = le→ltb 29 (length a.b) (omega arith) in
    append_field-field a t d ∙ rw (head, take_all (29 - length a.b) d (omega arith)) refl

-- The type of the field for a UUID that is complete or not.
abbrev pub uuid_field_type : Bool → Uuid → ℕ
uuid_field_type true u = if length u.b == 2 then 0x03 else 0x07
uuid_field_type false u = if length u.b == 2 then 0x02 else 0x06

abbrev pub IsUuid : Uuid → Type 0
IsUuid u = (length u.b ≡ 2) ⊎ (length u.b ≡ 16)

abbrev pub AreUuids : List Uuid → Type 0
AreUuids [] = Unit
AreUuids (u ∷ uu) = IsUuid u × AreUuids uu

append_one-field :
    (a : AdvPacket) (fit : Bool) (u : Uuid)
    → IsUuid u
    → length a.b + 2 + length u.b ≤ 31
    → append_one a fit u ≡ ok (record { b = a.b ++ field (uuid_field_type fit u) u.b })
unfolding append_one len
append_one-field a true u (inl e) h =
    let short : (length u.b == 2) ≡ true = ground arith in
    rw short (append_field_fits a FieldType.all_uuid16 u.b h)
append_one-field a true u (inr e) h =
    let not_short : (length u.b == 2) ≡ false = ground arith in
    let long : (length u.b == 16) ≡ true = ground arith in
    rw (not_short, long) (append_field_fits a FieldType.all_uuid128 u.b h)
append_one-field a false u (inl e) h =
    let short : (length u.b == 2) ≡ true = ground arith in
    let not_long : (length u.b == 16) ≡ false = ground arith in
    rw (short, not_long) (append_field_fits a FieldType.some_uuid16 u.b h)
append_one-field a false u (inr e) h =
    let not_short : (length u.b == 2) ≡ false = ground arith in
    let long : (length u.b == 16) ≡ true = ground arith in
    rw (not_short, long) (append_field_fits a FieldType.some_uuid128 u.b h)

-- The UUIDs that the second loop writes behind `l` bytes.
abbrev written : ℕ → List Uuid → List Uuid
written l [] = []
written l (u ∷ uu) =
    let skip = written l uu in
    let more = written (l + 2 + length u.b) uu in
    if is_generic u then skip else (if ltb 31 (l + 2 + length u.b) then [] else u ∷ more)

abbrev pub fields : Bool → List Uuid → List ℕ
fields fit [] = []
fields fit (u ∷ uu) = field (uuid_field_type fit u) u.b ++ fields fit uu

length-written :
    (l : ℕ) (fit : Bool) (uu : List Uuid) → l ≤ 31 → l + length (fields fit (written l uu)) ≤ 31
length-written l fit [] h = omega arith
length-written l fit (u ∷ uu) h = elim (Bool-cases (is_generic u)) [
  | inl generic ↦ rw generic (length-written l fit uu h)
  | inr own ↦ elim (Bool-cases (ltb 31 (l + 2 + length u.b))) [
    | inl over ↦ rw (own, over) (omega arith)
    | inr fits ↦
        let rest = length-written (l + 2 + length u.b) fit uu (ltb→le _ _ fits) in
        let size = length-append u.b (fields fit (written (l + 2 + length u.b) uu)) in
        rw (own, fits) (omega arith)
  ]
]

-- The second loop appends a field for each UUID written, and does not panic.
append_until-fields :
    (a : AdvPacket) (fit : Bool) (uu : List Uuid)
    → AreUuids uu
    → append_until a fit uu ≡ ok (record { b = a.b ++ fields fit (written (length a.b) uu) })
unfolding append_until len
append_until-fields a fit [] h = rw (append-nil a.b) refl
append_until-fields a fit (u ∷ uu) h = elim (Bool-cases (is_generic u)) [
  | inl generic ↦ rw generic (append_until-fields a fit uu h.1)
  | inr own ↦ elim (Bool-cases (ltb 31 (length a.b + 2 + length u.b))) [
    | inl over ↦ rw (own, over, append-nil a.b) refl
    | inr fits ↦
        let f = field (uuid_field_type fit u) u.b in
        let size : length (a.b ++ f) ≡ length a.b + 2 + length u.b =
          omega (arith, length-append a.b f) in
        rw (own, fits, append_one-field a fit u h.0 (ltb→le _ _ fits))
          (append_until-fields (record { b = a.b ++ f }) fit uu h.1
            ∙ rw (size, append_assoc a.b f (fields fit (written (length a.b + 2 + length u.b) uu)))
                refl)
  ]
]

-- The two generic services, 0x1800 and 0x1801.
abbrev generic : Uuid → Bool
generic u = bytes_equal u.b (0x00 ∷ 0x18 ∷ []) || bytes_equal u.b (0x01 ∷ 0x18 ∷ [])

-- The UUIDs of a list that are not of these.
abbrev pub own_uuids : List Uuid → List Uuid
own_uuids [] = []
own_uuids (u ∷ uu) = let rest = own_uuids uu in if generic u then rest else u ∷ rest

-- The bytes of a field for each.
abbrev pub total : List Uuid → ℕ
total [] = 0
total (u ∷ uu) = 2 + length u.b + total uu

-- Whether there is room for all of them behind `l` bytes.
abbrev pub complete : ℕ → List Uuid → Bool
complete l uu = leb (l + total (own_uuids uu)) 31

-- Those before the first that does not fit.
abbrev pub first_fitting : ℕ → List Uuid → List Uuid
first_fitting l [] = []
first_fitting l (u ∷ uu) =
    let more = first_fitting (l + 2 + length u.b) uu in
    if ltb 31 (l + 2 + length u.b) then [] else u ∷ more

is_generic-generic : (u : Uuid) → is_generic u ≡ generic u
unfolding equal
is_generic-generic u = refl

all_fit-complete : (l : ℕ) (uu : List Uuid) → l ≤ 31 → all_fit l uu ≡ complete l uu
unfolding all_fit len
all_fit-complete l [] h = sym (le→leb (l + 0) 31 (omega arith))
all_fit-complete l (u ∷ uu) h = elim (Bool-cases (generic u)) [
  | inl e ↦ rw (is_generic-generic u, e) (all_fit-complete l uu h)
  | inr e ↦
      let sum : l + (2 + length u.b) ≡ l + 2 + length u.b = omega arith in
      elim (Bool-cases (ltb 31 (l + 2 + length u.b))) [
        | inl over ↦
            let full : leb (l + (2 + length u.b + total (own_uuids uu))) 31 ≡ false =
              ground arith in
            rw (is_generic-generic u, e, sum, over, full) refl
        | inr fits ↦
            let ih = all_fit-complete (l + 2 + length u.b) uu (ltb→le _ _ fits) in
            let same : l + (2 + length u.b + total (own_uuids uu))
                ≡ l + 2 + length u.b + total (own_uuids uu) =
              omega arith in
            rw (is_generic-generic u, e, sum, fits, same) ih
      ]
]

written-first_fitting : (l : ℕ) (uu : List Uuid) → written l uu ≡ first_fitting l (own_uuids uu)
written-first_fitting l [] = refl
written-first_fitting l (u ∷ uu) = elim (Bool-cases (generic u)) [
  | inl e ↦ rw (is_generic-generic u, e) (written-first_fitting l uu)
  | inr e ↦ elim (Bool-cases (ltb 31 (l + 2 + length u.b))) [
    | inl over ↦ rw (is_generic-generic u, e, over) refl
    | inr fits ↦
        rw (is_generic-generic u, e, fits)
          (ap (λ r. u ∷ r) (written-first_fitting (l + 2 + length u.b) uu))
  ]
]

first_fitting-total : (l : ℕ) (uu : List Uuid) → l + total uu ≤ 31 → first_fitting l uu ≡ uu
first_fitting-total l [] h = refl
first_fitting-total l (u ∷ uu) h =
    let fits : ltb 31 (l + 2 + length u.b) ≡ false = le→ltb _ _ (omega arith) in
    rw fits (ap (λ r. u ∷ r) (first_fitting-total (l + 2 + length u.b) uu (omega arith)))

-- AppendUUIDFit on UUIDs of 2 or 16 bytes and a packet of at most 31 bytes: it does not panic; it
-- reports whether there is room for a field for each UUID that is not 0x1800 or 0x1801, and where it
-- does, none of these is left out; it appends a field for each of them before the first that does not
-- fit, of the type for complete lists exactly where it reports so; and the packet stays within 31
-- bytes.
pub append_uuid_fit-fields :
    (a : AdvPacket) (uu : List Uuid)
    → AreUuids uu
    → length a.b ≤ 31
    → (append_uuid_fit a uu
        ≡ ok (
          complete (length a.b) uu,
          record {
            b =
                a.b
                ++ fields (complete (length a.b) uu) (first_fitting (length a.b) (own_uuids uu));
          },
        ))
      × (length
            (a.b ++ fields (complete (length a.b) uu) (first_fitting (length a.b) (own_uuids uu)))
          ≤ 31)
      × (complete (length a.b) uu ≡ true → first_fitting (length a.b) (own_uuids uu) ≡ own_uuids uu)
unfolding append_uuid_fit
append_uuid_fit-fields a uu h small =
    let fit = complete (length a.b) uu in
    let report : all_fit (length a.b) uu ≡ fit = all_fit-complete (length a.b) uu small in
    let first = written-first_fitting (length a.b) uu in
    let size = length-append a.b (fields fit (first_fitting (length a.b) (own_uuids uu))) in
    let bound = length-written (length a.b) fit uu small in
    let bound' : length a.b + length (fields fit (first_fitting (length a.b) (own_uuids uu))) ≤ 31 =
      rw first at bound in
    (
      rw (append_until-fields a (all_fit (length a.b) uu) uu h) (rw (report, first) refl),
      omega arith,
      λ e. first_fitting-total (length a.b) (own_uuids uu) (leb→le _ _ e),
    )
