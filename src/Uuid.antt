-- ===== src/Uuid.antt =====
-- uuid.go: the UUID type, a byte string in BLE order (least significant byte first).
pub mod Text
use gatt.Prelude.{ℕ, List, [], ◌∷◌, Bool, true, false, Option, none, some}
use gatt.Prelude.{length, bytes_equal, put_uint16, if◌then◌else◌}

pub record Uuid : Type 0 where
  pub b : List ℕ

abbrev pub uuid16 : ℕ → Uuid
uuid16 i = record { b = put_uint16 i }

unfoldable pub len : Uuid → ℕ
len u = length u.b

unfoldable pub equal : Uuid → Uuid → Bool
equal u v = bytes_equal u.b v.b

-- `none` is a nil slice, which contains every UUID.
unfoldable pub contains_loop : List Uuid → Uuid → Bool
unfolding equal
contains_loop [] u = false
contains_loop (a ∷ s) u = if equal a u then true else contains_loop s u

unfoldable pub uuid_contains : Option (List Uuid) → Uuid → Bool
unfolding contains_loop
uuid_contains none u = true
uuid_contains (some s) u = contains_loop s u
