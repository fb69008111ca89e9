-- ===== src/Prelude/Runs.antt =====
-- Go code that may panic, and Go's reads of a byte slice. A slice is its elements and the bytes of
-- the backing array between its length and its capacity, which `b[i:j]` may reach.
use Prim.Native.Nat.{ℕ, ◌+◌, ◌-◌, ◌*◌, ◌/◌, ◌%◌, ◌<◌}
use mathlib.Core.Path.{◌≡◌, refl}
use mathlib.Core.Option.{Option, none, some}
use mathlib.Core.List.{List, [], ◌∷◌, ◌++◌}
use native.Mathlib.Omega.{arith}
use gatt.Prelude.Tests.{leb, if◌then◌else◌}
use gatt.Prelude.Lists.{length, take, drop, get_elem?}

-- `panic` is a run-time panic: a slice or index out of bounds, a nil call, a call of panic().
pub data Run {ℓ} (A : Type ℓ) : Type ℓ where
  ok : A → Run A
  panic : Run A

infixl 5 ◌>>=◌
abbrev pub ◌>>=◌ {ℓ κ} : {A : Type ℓ} {B : Type κ} → Run A → (A → Run B) → Run B
ok a >>= f = f a
panic >>= f = panic

pub record Slice : Type 0 where
  pub elems : List ℕ
  pub spare : List ℕ

-- A slice whose capacity is its length.
abbrev pub exact : List ℕ → Slice
exact xs = record { elems = xs; spare = [] }

abbrev pub from_option {ℓ} : {A : Type ℓ} → Option A → Run A
from_option none = panic
from_option (some a) = ok a

-- `b[i]`
abbrev pub index : List ℕ → ℕ → Run ℕ
index b i = from_option (get_elem? b i)

-- `b[i:]`, which panics where `i` is past the length.
abbrev pub slice_from : Slice → ℕ → Run Slice
slice_from b i =
    if leb i (length b.elems)
    then ok (record { elems = drop i b.elems; spare = b.spare })
    else panic

-- The bytes of `b[i:j]` for `i ≤ j`, which panics where `j` is past the capacity.
abbrev pub slice_bytes : Slice → ℕ → ℕ → Run (List ℕ)
slice_bytes b i j =
    if leb j (length (b.elems ++ b.spare))
    then ok (take (j - i) (drop i (b.elems ++ b.spare)))
    else panic

-- binary.LittleEndian: PutUint16 and Uint16.
abbrev pub put_uint16 : ℕ → List ℕ
put_uint16 v = v % 256 ∷ v / 256 % 256 ∷ []

abbrev pub uint16 : List ℕ → Run ℕ
uint16 [] = panic
uint16 (a ∷ []) = panic
uint16 (a ∷ b ∷ rest) = ok (a + b * 256)

pub uint16-put_uint16 : (v : ℕ) → v < 65536 → uint16 (put_uint16 v) ≡ ok v
uint16-put_uint16 v h = ground arith

-- A property of the result, if there is one; and of the result, which there is.
abbrev pub Ensures {ℓ κ} : {A : Type ℓ} → (A → Type κ) → Run A → Type κ
Ensures P (ok a) = P a
Ensures P panic = Unit

pub Ensures-bind {ℓ κ ι ν} :
    {A : Type ℓ} {B : Type κ} {P : A → Type ι} (Q : B → Type ν) (m : Run A) (f : A → Run B)
    → Ensures P m
    → ((a : A) → P a → Ensures Q (f a))
    → Ensures Q (m >>= f)
Ensures-bind Q (ok a) f h k = k a h
Ensures-bind Q panic f h k = tt

pub Ensures-any {ℓ} : {A : Type ℓ} (m : Run A) → Ensures (λ _. Unit {0}) m
Ensures-any (ok a) = tt
Ensures-any panic = tt

pub bind_cong {ℓ κ} :
    {A : Type ℓ} {B : Type κ} (m : Run A) (f g : A → Run B)
    → ((a : A) → f a ≡ g a)
    → (m >>= f) ≡ (m >>= g)
bind_cong (ok a) f g h = h a
bind_cong panic f g h = refl

pub bind_assoc {ℓ κ ι} :
    {A : Type ℓ} {B : Type κ} {C : Type ι} (m : Run A) (f : A → Run B) (g : B → Run C)
    → ((m >>= f) >>= g) ≡ (m >>= λ a. f a >>= g)
bind_assoc (ok a) f g = refl
bind_assoc panic f g = refl
