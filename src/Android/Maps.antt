-- ===== src/Android/Maps.antt =====
-- What the Android files use of Go: maps from strings, kept as lists of entries, and strings.HasSuffix.
use gatt.Prelude.{
  ℕ, ◌-◌, ◌≡◌, refl, sym, ap, ◌∙◌, List, [], ◌∷◌, Bool, true, false, Option, none, some, arith,
  length, drop, bytes_equal, bytes_equal_iff, leb, if◌then◌else◌, Bool-cases, inl, inr,
}

-- A string is the list of its characters.
abbrev pub Text : Type 0
Text = List ℕ

module _ {ℓ} {A : Type ℓ} where
  unfoldable pub find : List (Text × A) → Text → Option A
  find [] k = none
  find ((j, v) ∷ m) k = if bytes_equal j k then some v else find m k

  -- delete(m, k)
  unfoldable pub erase : List (Text × A) → Text → List (Text × A)
  erase [] k = []
  erase ((j, v) ∷ m) k = let rest = erase m k in if bytes_equal j k then rest else (j, v) ∷ rest

  -- m[k] = v
  unfoldable pub store : List (Text × A) → Text → A → List (Text × A)
  unfolding erase
  store m k v = (k, v) ∷ erase m k

-- strings.HasSuffix
unfoldable pub has_suffix : Text → Text → Bool
has_suffix s t =
    if leb (length t) (length s) then bytes_equal (drop (length s - length t) s) t else false

pub bytes_equal_self : (k : Text) → bytes_equal k k ≡ true
bytes_equal_self k = (bytes_equal_iff k k).1 refl

module _ {ℓ} {A : Type ℓ} where
  pub find-erase :
      (m : List (Text × A)) (k j : Text)
      → find (erase m k) j ≡ (if bytes_equal k j then none else find m j)
  unfolding find erase
  find-erase [] k j = ground arith
  find-erase ((i, v) ∷ m) k j = elim (Bool-cases (bytes_equal i k)) [
    | inl e ↦
        let same : i ≡ k = (bytes_equal_iff i k).0 e in
        rw (e, find-erase m k j) (rw same (shadow (bytes_equal k j)))
    | inr e ↦ elim (Bool-cases (bytes_equal i j)) [
      | inl f ↦
          let same : i ≡ j = (bytes_equal_iff i j).0 f in
          rw (e, f)
            (elim (Bool-cases (bytes_equal k j)) [
              | inl g ↦
                  let clash : bytes_equal i k ≡ true =
                    (bytes_equal_iff i k).1 (same ∙ sym ((bytes_equal_iff k j).0 g)) in
                  cc
              | inr g ↦ rw g refl
            ])
      | inr f ↦ rw (e, f) (find-erase m k j)
    ]
  ]
    where
      shadow :
          (b : Bool)
          → (if b then none else find m j) ≡ (if b then none else (if b then some v else find m j))
      shadow true = refl
      shadow false = refl

  pub find-erase_other :
      (m : List (Text × A)) (k j : Text) → bytes_equal k j ≡ false → find (erase m k) j ≡ find m j
  find-erase_other m k j d = rw (find-erase m k j, d) refl

  pub find-erase_same : (m : List (Text × A)) (k : Text) → find (erase m k) k ≡ none
  find-erase_same m k = rw (find-erase m k k, bytes_equal_self k) refl

  -- What is still there was there, under another key.
  pub find-erase-some :
      (m : List (Text × A)) (k j : Text) (v : A)
      → find (erase m k) j ≡ some v
      → (bytes_equal k j ≡ false) × (find m j ≡ some v)
  find-erase-some m k j v e = elim (Bool-cases (bytes_equal k j)) [
    | inl h ↦
        let gone : none ≡ some v =
          sym (ap (find (erase m k)) (sym ((bytes_equal_iff k j).0 h)) ∙ find-erase_same m k) ∙ e in
        cc
    | inr h ↦ (h, sym (find-erase_other m k j h) ∙ e)
  ]

  pub find-store :
      (m : List (Text × A)) (k j : Text) (v : A)
      → find (store m k v) j ≡ (if bytes_equal k j then some v else find m j)
  unfolding find store
  find-store m k j v = elim (Bool-cases (bytes_equal k j)) [
    | inl e ↦ rw e refl
    | inr e ↦ rw (e, find-erase m k j) (rw e refl)
  ]
