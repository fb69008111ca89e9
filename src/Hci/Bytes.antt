-- ===== src/Hci/Bytes.antt =====
-- linux/util/binary_order.go: numbers and addresses in byte slices, the least significant byte first.
use gatt.Prelude.{ℕ, ◌+◌, ◌*◌, ◌/◌, ◌%◌, List, [], ◌∷◌, Option, none, some}

-- [6]byte, a device address in the order in which it is written for a reader.
pub record Address : Type 0 where
  pub a0 : ℕ
  pub a1 : ℕ
  pub a2 : ℕ
  pub a3 : ℕ
  pub a4 : ℕ
  pub a5 : ℕ

abbrev pub put_uint8 : ℕ → List ℕ
put_uint8 v = v ∷ []

abbrev pub put_uint64 : ℕ → List ℕ
put_uint64 v =
    v % 256
    ∷ (v / 256 % 256)
    ∷ (v / 65536 % 256)
    ∷ (v / 16777216 % 256)
    ∷ (v / 4294967296 % 256)
    ∷ (v / 1099511627776 % 256)
    ∷ (v / 281474976710656 % 256)
    ∷ (v / 72057594037927936 % 256)
    ∷ []

-- PutMAC
abbrev pub put_mac : Address → List ℕ
put_mac m = m.a5 ∷ m.a4 ∷ m.a3 ∷ m.a2 ∷ m.a1 ∷ m.a0 ∷ []

-- MAC: `b[5]` and below panic where the slice is short.
abbrev pub mac : List ℕ → Option Address
mac (a ∷ b ∷ c ∷ d ∷ e ∷ f ∷ r) = some (record { a0 = f; a1 = e; a2 = d; a3 = c; a4 = b; a5 = a })
mac b = none

-- A number of the bytes, the least significant one first.
abbrev pub number : List ℕ → ℕ
number [] = 0
number (x ∷ xs) = x + number xs * 256
