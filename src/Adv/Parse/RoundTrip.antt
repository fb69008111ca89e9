-- ===== src/Adv/Parse/RoundTrip.antt =====
-- Parsing a sequence of fields gives what the fields say, one after the other.
use gatt.Prelude.{
  ℕ, zero, suc, ◌+◌, ◌-◌, ◌%◌, ◌≤◌, ◌≡◌, refl, sym, ◌∙◌, List, [], ◌∷◌, ◌++◌, true, false, arith,
  Run, ok, ◌>>=◌, length, length-append, take_left, drop_left, ltb, le→ltb, bind_cong, bind_assoc,
}
use gatt.Adv.Packet.Room.{field}
use gatt.Adv.Parse.{Advertisement, apply_field, unmarshall_loop, unmarshall}

-- A field that the length byte can describe.
abbrev pub AreFields : List (ℕ × List ℕ) → Type 0
AreFields [] = Unit
AreFields ((t, d) ∷ fs) = (length d ≤ 253) × AreFields fs

abbrev pub encode : List (ℕ × List ℕ) → List ℕ
encode [] = []
encode ((t, d) ∷ fs) = field t d ++ encode fs

-- The fields applied in turn.
abbrev pub apply_fields : Advertisement → List (ℕ × List ℕ) → Run Advertisement
apply_fields a [] = ok a
apply_fields a ((t, d) ∷ fs) = apply_field (record a { raw = d }) t d >>= λ a'. apply_fields a' fs

unmarshall_loop-encode :
    (fuel : ℕ) (a : Advertisement) (fs : List (ℕ × List ℕ))
    → AreFields fs
    → length (encode fs) ≤ fuel
    → unmarshall_loop fuel a (encode fs)
      ≡ (apply_fields a fs >>= λ a'. ok (record { adv = a'; valid = true }))
unfolding unmarshall_loop
unmarshall_loop-encode zero a [] fits enough = refl
unmarshall_loop-encode (suc fuel) a [] fits enough = refl
unmarshall_loop-encode zero a ((t, d) ∷ fs) fits enough = absurd (omega arith)
unmarshall_loop-encode (suc fuel) a ((t, d) ∷ fs) fits enough =
    let end : (1 + (length d + 1) % 256) % 256 ≡ length d + 2 = omega arith in
    let size = length-append d (encode fs) in
    let l_pos : ltb ((length d + 1) % 256) 1 ≡ false = le→ltb _ _ (omega arith) in
    let inside : ltb (length (field t d ++ encode fs)) (length d + 2) ≡ false =
      le→ltb _ _ (omega arith) in
    let head : ltb (length d + 2) 2 ≡ false = le→ltb _ _ (omega arith) in
    let content : length d + 2 - 2 ≡ length d = omega arith in
    rw (end, l_pos, inside, head, content, take_left d (encode fs), drop_left d (encode fs))
      (bind_cong (apply_field (record a { raw = d }) t d) _ _
          (λ a'. unmarshall_loop-encode fuel a' fs fits.1 (omega arith))
        ∙ sym (bind_assoc (apply_field (record a { raw = d }) t d) (λ a'. apply_fields a' fs) _))

-- unmarshall on fields written one after the other, each of at most 253 bytes: it applies the switch
-- to each in turn, panics exactly where one of them does, and returns no error otherwise.
pub unmarshall-encode :
    (a : Advertisement) (fs : List (ℕ × List ℕ))
    → AreFields fs
    → unmarshall a (encode fs)
      ≡ (apply_fields a fs >>= λ a'. ok (record { adv = a'; valid = true }))
unfolding unmarshall
unmarshall-encode a fs fits = unmarshall_loop-encode (length (encode fs)) a fs fits (omega arith)
