-- ===== src/AttrTable/Lookup.antt =====
-- Lookups in a table whose handles are contiguous.
use gatt.Prelude.{
  ℕ, zero, suc, ◌+◌, ◌-◌, ◌≤◌, ◌<◌, ◌≡◌, refl, List, [], ◌∷◌, Option, none, some, ok, panic, arith,
  length, take, drop, get_elem?, ltb, leb, ◌&&◌, if◌then◌else◌, Bool-cases, inl, inr, ltb→lt,
  ltb→le, leb→le, take_all, drop_all, length-drop, ◌==◌,
}
use gatt.AttrTable.{at, Attr, AttrRange, at_handle, subrange, at_idx}

-- The handles are `n`, `n + 1`, and so on.
abbrev pub HandlesFrom : ℕ → List Attr → Type 0
HandlesFrom n [] = Unit
HandlesFrom n (a ∷ aa) = (a.h ≡ n) × HandlesFrom (suc n) aa

abbrev pub IsContiguous : AttrRange → Type 0
IsContiguous r = HandlesFrom r.base r.aa

-- The attribute with a handle.
abbrev pub find_handle : ℕ → List Attr → Option Attr
find_handle h [] = none
find_handle h (a ∷ aa) = if a.h == h then some a else find_handle h aa

find_handle_below : (h n : ℕ) (aa : List Attr) → HandlesFrom n aa → h < n → find_handle h aa ≡ none
find_handle_below h n [] c lt = refl
find_handle_below h n (a ∷ aa) c lt =
    let rest = find_handle_below h (suc n) aa c.1 (omega arith) in ground arith

find_handle_position :
    (h n i : ℕ) (aa : List Attr) → HandlesFrom n aa → h ≡ n + i → find_handle h aa ≡ get_elem? aa i
find_handle_position h n i [] c e = refl
find_handle_position h n zero (a ∷ aa) c e = let same : a.h ≡ h = omega (arith, c.0) in ground arith
find_handle_position h n (suc i) (a ∷ aa) c e =
    let rest = find_handle_position h (suc n) i aa c.1 (omega arith) in ground (arith, c.0)

get_elem?-none : (i : ℕ) (aa : List Attr) → length aa ≤ i → get_elem? aa i ≡ none
get_elem?-none i [] h = refl
get_elem?-none zero (a ∷ aa) h = absurd (omega arith)
get_elem?-none (suc i) (a ∷ aa) h = get_elem?-none i aa (omega arith)

get_elem?-some : (i : ℕ) (aa : List Attr) → i < length aa → (a : Attr) × (get_elem? aa i ≡ some a)
get_elem?-some i [] h = absurd (omega arith)
get_elem?-some zero (a ∷ aa) h = (a, refl)
get_elem?-some (suc i) (a ∷ aa) h = get_elem?-some i aa (omega arith)

at_idx-inside : (r : AttrRange) (i : ℕ) → i < length r.aa → at_idx r (at i) ≡ ok (get_elem? r.aa i)
unfolding at_idx
at_idx-inside r i h = let (a, e) = get_elem?-some i r.aa h in rw (e, at_idx) refl

-- At of a contiguous table never panics, and finds the attribute with that handle, if there is one.
pub at_handle-find_handle :
    (r : AttrRange) (h : ℕ) → IsContiguous r → at_handle r h ≡ ok (find_handle h r.aa)
unfolding at_handle
at_handle-find_handle r h c = elim (Bool-cases (ltb h r.base)) [
  | inl low ↦ rw (low, find_handle_below h r.base r.aa c (ltb→lt _ _ low)) refl
  | inr notlow ↦
      let lo : r.base ≤ h = ltb→le _ _ notlow in
      rw (notlow, find_handle_position h r.base (h - r.base) r.aa c (omega arith))
        (elim (Bool-cases (leb (r.base + length r.aa) h)) [
          | inl high ↦
              let hi = leb→le _ _ high in
              rw (high, get_elem?-none (h - r.base) r.aa (omega arith)) refl
          | inr inside ↦
              let hi : h < r.base + length r.aa = ground arith in
              rw (inside, at_idx-inside r (h - r.base) (omega arith)) refl
        ])
]

-- The attributes whose handle lies in [start, end], in table order.
abbrev pub in_range : ℕ → ℕ → List Attr → List Attr
in_range start end [] = []
in_range start end (a ∷ aa) =
    if leb start a.h && leb a.h end then a ∷ in_range start end aa else in_range start end aa

-- A filter by the handle is a piece of the list.
in_range_piece :
    (start end n k j : ℕ) (aa : List Attr)
    → k ≡ suc end - n - (start - n)
    → j ≡ start - n
    → HandlesFrom n aa
    → in_range start end aa ≡ take k (drop j aa)
in_range_piece start end n zero zero [] ek ej h = refl
in_range_piece start end n zero (suc j) [] ek ej h = refl
in_range_piece start end n (suc k) zero [] ek ej h = refl
in_range_piece start end n (suc k) (suc j) [] ek ej h = refl
in_range_piece start end n k (suc j) (a ∷ aa) ek ej h =
    let rest = in_range_piece start end (suc n) k j aa (omega arith) (omega arith) h.1 in
    ground arith
in_range_piece start end n zero zero (a ∷ aa) ek ej h =
    let rest = in_range_piece start end (suc n) zero zero aa (omega arith) (omega arith) h.1 in
    ground arith
in_range_piece start end n (suc k) zero (a ∷ aa) ek ej h =
    let rest = in_range_piece start end (suc n) k zero aa (omega arith) (omega arith) h.1 in
    ground arith

-- Subrange of a contiguous table is the filter by the handle, whatever `start` and `end`, but for a
-- range that is turned round inside the table, on which the slice expression panics.
pub subrange-in_range :
    (r : AttrRange) (start end : ℕ)
    → IsContiguous r
    → subrange r start end ≡ (
        if ltb (end + 1) start && (leb r.base (end + 1) && ltb start (r.base + length r.aa))
        then panic
        else ok (in_range start end r.aa))
unfolding subrange
subrange-in_range r start end c = rw (in_range_piece start end r.base _ _ r.aa refl refl c) (
    ground (
      arith,
      length-drop (start - r.base) r.aa,
      drop_all (start - r.base) r.aa,
      take_all (suc end - r.base - (start - r.base)) (drop (start - r.base) r.aa),
      take_all (length r.aa - (start - r.base)) (drop (start - r.base) r.aa),
    ))
