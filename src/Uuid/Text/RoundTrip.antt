-- ===== src/Uuid/Text/RoundTrip.antt =====
-- The text of a UUID is read back.
use gatt.Prelude.{
  ℕ, ◌+◌, ◌*◌, ◌/◌, ◌%◌, ◌<◌, ◌≡◌, ◌⊎◌, inl, inr, refl, ap, ◌∙◌, List, [], ◌∷◌, ◌++◌, some, true,
  false, arith, length, length-append, All, All-append, ◌==◌, Bool-cases,
}
use mathlib.Core.List.{reverse, reverse-cons, reverse-reverse}
use gatt.Uuid.{Uuid}
use gatt.Uuid.Text.{
  hex_digit, hex, string, digit_value, prepend, decode_string, remove_dashes, of_bytes, parse_uuid,
}

abbrev pub AreBytes : List ℕ → Type 0
AreBytes = All (λ b. b < 256)

digit_value-hex_digit : (d : ℕ) → d < 16 → digit_value (hex_digit d) ≡ some d
unfolding digit_value hex_digit
digit_value-hex_digit d h = ground arith

hex_digit-not_dash : (d : ℕ) → d < 16 → (hex_digit d == 45) ≡ false
unfolding hex_digit
hex_digit-not_dash d h = ground arith

pub decode_string-hex : (bs : List ℕ) → AreBytes bs → decode_string (hex bs) ≡ some bs
unfolding decode_string hex prepend
decode_string-hex [] h = refl
decode_string-hex (b ∷ bs) h =
    let high : b / 16 < 16 = omega (arith, h.0) in
    let low : b % 16 < 16 = omega arith in
    let whole : b / 16 * 16 + b % 16 ≡ b = omega arith in
    rw (digit_value-hex_digit (b / 16) high, digit_value-hex_digit (b % 16) low)
      (rw (decode_string-hex bs h.1) (ap (λ x. some (x ∷ bs)) whole))

pub remove_dashes-hex : (bs : List ℕ) → AreBytes bs → remove_dashes (hex bs) ≡ hex bs
unfolding remove_dashes hex
remove_dashes-hex [] h = refl
remove_dashes-hex (b ∷ bs) h =
    let high : b / 16 < 16 = omega (arith, h.0) in
    let low : b % 16 < 16 = omega arith in
    rw (hex_digit-not_dash (b / 16) high, hex_digit-not_dash (b % 16) low)
      (ap (λ r. hex_digit (b / 16) ∷ hex_digit (b % 16) ∷ r) (remove_dashes-hex bs h.1))

pub remove_dashes-append :
    (s t : List ℕ) → remove_dashes (s ++ t) ≡ remove_dashes s ++ remove_dashes t
unfolding remove_dashes
remove_dashes-append [] t = refl
remove_dashes-append (c ∷ s) t = elim (Bool-cases (c == 45)) [
  | inl e ↦ rw e (remove_dashes-append s t)
  | inr e ↦ rw e (ap (λ r. c ∷ r) (remove_dashes-append s t))
]

pub hex-append : (s t : List ℕ) → hex (s ++ t) ≡ hex s ++ hex t
unfolding hex
hex-append [] t = refl
hex-append (b ∷ s) t = ap (λ r. hex_digit (b / 16) ∷ hex_digit (b % 16) ∷ r) (hex-append s t)

pub reverse-AreBytes : (bs : List ℕ) → AreBytes bs → AreBytes (reverse bs)
reverse-AreBytes [] h = tt
reverse-AreBytes (b ∷ bs) h =
    rw (reverse-cons b bs)
      (All-append (λ b. b < 256) (reverse bs) (b ∷ []) (reverse-AreBytes bs h.1) (h.0, tt))

pub length-reverse : (bs : List ℕ) → length (reverse bs) ≡ length bs
length-reverse [] = refl
length-reverse (b ∷ bs) =
    rw (reverse-cons b bs) (omega (arith, length-append (reverse bs) (b ∷ []), length-reverse bs))

-- What is left of a text without its dashes decides what ParseUUID reads.
pub parse_uuid-hex :
    (s bs : List ℕ)
    → remove_dashes s ≡ hex bs
    → AreBytes bs
    → (length bs ≡ 2) ⊎ (length bs ≡ 16)
    → parse_uuid s ≡ some (record { b = reverse bs })
unfolding parse_uuid of_bytes
parse_uuid-hex s bs e h (inl two) =
    let t : (length bs == 2) ≡ true = ground arith in rw (e, decode_string-hex bs h) (rw t refl)
parse_uuid-hex s bs e h (inr sixteen) =
    let f : (length bs == 2) ≡ false = ground arith in
    let t : (length bs == 16) ≡ true = ground arith in
    rw (e, decode_string-hex bs h) (rw (f, t) refl)

-- ParseUUID reads the String of every UUID of 2 or 16 bytes back.
pub parse_uuid-string :
    (u : Uuid)
    → AreBytes u.b
    → (length u.b ≡ 2) ⊎ (length u.b ≡ 16)
    → parse_uuid (string u) ≡ some u
unfolding string
parse_uuid-string u h l =
    parse_uuid-hex (hex (reverse u.b)) (reverse u.b)
      (remove_dashes-hex (reverse u.b) (reverse-AreBytes u.b h)) (reverse-AreBytes u.b h) (same l)
    ∙ ap (λ b. some (record { b = b })) (reverse-reverse u.b)
  where
    same :
        (length u.b ≡ 2) ⊎ (length u.b ≡ 16)
        → (length (reverse u.b) ≡ 2) ⊎ (length (reverse u.b) ≡ 16)
    same (inl e) = inl (length-reverse u.b ∙ e)
    same (inr e) = inr (length-reverse u.b ∙ e)
