-- ===== src/Prelude/Positions.antt =====
-- Lists of objects that pointers lead to: a pointer is a position, an object that is made is the last.
use Prim.Native.Nat.{ℕ, zero, suc, ◌<◌}
use mathlib.Core.Path.{◌≡◌, refl, ap}
use mathlib.Core.Logic.{◌≢◌}
use mathlib.Core.List.{List, [], ◌∷◌, ◌++◌}
use mathlib.Core.Option.{some}
use native.Mathlib.Omega.{arith}
use gatt.Prelude.Lists.{length, get_elem?}

module _ {ℓ} {A : Type ℓ} where
  -- A change of the object at a position.
  unfoldable pub update : List A → ℕ → (A → A) → List A
  update [] p f = []
  update (x ∷ xs) zero f = f x ∷ xs
  update (x ∷ xs) (suc p) f = x ∷ update xs p f

  pub get_elem?-update_other :
      (xs : List A) (p q : ℕ) (f : A → A) → p ≢ q → get_elem? (update xs p f) q ≡ get_elem? xs q
  unfolding update
  get_elem?-update_other [] p q f d = refl
  get_elem?-update_other (x ∷ xs) zero zero f d = absurd (d refl)
  get_elem?-update_other (x ∷ xs) zero (suc q) f d = refl
  get_elem?-update_other (x ∷ xs) (suc p) zero f d = refl
  get_elem?-update_other (x ∷ xs) (suc p) (suc q) f d =
      get_elem?-update_other xs p q f (λ e. d (ap suc e))

  pub get_elem?-update_same :
      (xs : List A) (p : ℕ) (f : A → A) (x : A)
      → get_elem? xs p ≡ some x
      → get_elem? (update xs p f) p ≡ some (f x)
  unfolding update
  get_elem?-update_same [] p f x e = cc
  get_elem?-update_same (y ∷ xs) zero f x e = let same : y ≡ x = cc in ap (λ z. some (f z)) same
  get_elem?-update_same (y ∷ xs) (suc p) f x e = get_elem?-update_same xs p f x e

  pub get_elem?-lt : (xs : List A) (p : ℕ) (x : A) → get_elem? xs p ≡ some x → p < length xs
  get_elem?-lt [] p x e = cc
  get_elem?-lt (y ∷ xs) zero x e = omega arith
  get_elem?-lt (y ∷ xs) (suc p) x e = omega (arith, get_elem?-lt xs p x e)

  pub update-append :
      (xs ys : List A) (p : ℕ) (f : A → A)
      → p < length xs
      → update (xs ++ ys) p f ≡ update xs p f ++ ys
  unfolding update
  update-append [] ys p f h = absurd (omega arith)
  update-append (x ∷ xs) ys zero f h = refl
  update-append (x ∷ xs) ys (suc p) f h = ap (λ r. x ∷ r) (update-append xs ys p f (omega arith))

  pub length-update : (xs : List A) (p : ℕ) (f : A → A) → length (update xs p f) ≡ length xs
  unfolding update
  length-update [] p f = refl
  length-update (x ∷ xs) zero f = refl
  length-update (x ∷ xs) (suc p) f = ap suc (length-update xs p f)

  -- An entry of a list with one more element is an old one or the last.
  pub data Appended (xs : List A) (x y : A) (p : ℕ) : Type ℓ where
    old : get_elem? xs p ≡ some y → Appended xs x y p
    last : length xs ≡ p → x ≡ y → Appended xs x y p

  pub append_cases :
      (xs : List A) (x y : A) (p : ℕ) → get_elem? (xs ++ (x ∷ [])) p ≡ some y → Appended xs x y p
  append_cases [] x y zero e = last refl cc
  append_cases [] x y (suc p) e = cc
  append_cases (z ∷ xs) x y zero e = old e
  append_cases (z ∷ xs) x y (suc p) e = elim (append_cases xs x y p e) [
    | old f ↦ old f
    | last f g ↦ last (ap suc f) g
  ]

  pub get_elem?-append_old :
      (xs : List A) (x y : A) (p : ℕ)
      → get_elem? xs p ≡ some y
      → get_elem? (xs ++ (x ∷ [])) p ≡ some y
  get_elem?-append_old [] x y p e = cc
  get_elem?-append_old (z ∷ xs) x y zero e = e
  get_elem?-append_old (z ∷ xs) x y (suc p) e = get_elem?-append_old xs x y p e

  pub get_elem?-append_last :
      (xs : List A) (x : A) → get_elem? (xs ++ (x ∷ [])) (length xs) ≡ some x
  get_elem?-append_last [] x = refl
  get_elem?-append_last (z ∷ xs) x = get_elem?-append_last xs x
