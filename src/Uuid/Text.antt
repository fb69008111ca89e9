-- ===== src/Uuid/Text.antt =====
-- uuid.go: the text of a UUID, its bytes in hexadecimal with the most significant first.
pub mod RoundTrip
use gatt.Prelude.{
  ℕ, ◌+◌, ◌-◌, ◌*◌, ◌/◌, ◌%◌, List, [], ◌∷◌, Option, none, some, length, ltb, leb, ◌==◌, Run, ok,
  panic, if◌then◌else◌,
}
use mathlib.Core.List.{reverse}
use gatt.Uuid.{Uuid}

-- A hexadecimal digit in lower case, and "%x" of bytes.
unfoldable pub hex_digit : ℕ → ℕ
hex_digit d = if ltb d 10 then 48 + d else 87 + d

unfoldable pub hex : List ℕ → List ℕ
unfolding hex_digit
hex [] = []
hex (b ∷ bs) = hex_digit (b / 16) ∷ hex_digit (b % 16) ∷ hex bs

-- UUID.String
unfoldable pub string : Uuid → List ℕ
unfolding hex
string u = hex (reverse u.b)

-- The value of a character that hex.DecodeString accepts.
unfoldable pub digit_value : ℕ → Option ℕ
digit_value c =
    if ltb c 48
    then none
    else if leb c 57
    then some (c - 48)
    else if ltb c 65
    then none
    else if leb c 70
    then some (c - 55)
    else if ltb c 97
    then none
    else if leb c 102
    then some (c - 87)
    else none

unfoldable pub prepend : Option ℕ → Option ℕ → Option (List ℕ) → Option (List ℕ)
prepend (some h) (some l) (some bs) = some ((h * 16 + l) ∷ bs)
prepend (some h) (some l) none = none
prepend (some h) none bs = none
prepend none l bs = none

-- hex.DecodeString
unfoldable pub decode_string : List ℕ → Option (List ℕ)
unfolding digit_value prepend
decode_string [] = some []
decode_string (c ∷ []) = none
decode_string (c ∷ d ∷ s) = prepend (digit_value c) (digit_value d) (decode_string s)

-- strings.Replace(s, "-", "", -1)
unfoldable pub remove_dashes : List ℕ → List ℕ
remove_dashes [] = []
remove_dashes (c ∷ s) = let rest = remove_dashes s in if c == 45 then rest else c ∷ rest

unfoldable pub of_bytes : Option (List ℕ) → Option Uuid
of_bytes none = none
of_bytes (some b) =
    if length b == 2
    then some (record { b = reverse b })
    else if length b == 16
    then some (record { b = reverse b })
    else none

-- ParseUUID; `none` is an error.
unfoldable pub parse_uuid : List ℕ → Option Uuid
unfolding decode_string remove_dashes of_bytes
parse_uuid s = of_bytes (decode_string (remove_dashes s))

-- MustParseUUID
unfoldable pub must_parse_uuid : List ℕ → Run Uuid
unfolding parse_uuid
must_parse_uuid s = elim (parse_uuid s) [ none ↦ panic | some u ↦ ok u ]
