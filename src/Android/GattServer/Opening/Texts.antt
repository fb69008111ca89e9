-- ===== src/Android/GattServer/Opening/Texts.antt =====
-- The texts of UUIDs that go to Java, and what is read of them when they come back.
use gatt.Prelude.{
  ℕ, zero, suc, ◌+◌, ◌<◌, ◌≡◌, ◌⊎◌, inl, inr, refl, sym, ap, ◌∙◌, List, [], ◌∷◌, ◌++◌, some, true,
  false, arith, length, take, drop, take-append-drop, drop-drop, length-append, All, All-append,
  bytes_equal, bytes_equal_iff, ◌==◌, Bool-cases, if◌then◌else◌,
}
use mathlib.Core.List.{reverse, reverse-append, reverse-reverse}
use gatt.Uuid.{Uuid, equal, uuid_contains, contains_loop}
use gatt.Uuid.Text.{hex, parse_uuid, remove_dashes}
use gatt.Uuid.Text.RoundTrip.{
  AreBytes, parse_uuid-hex, remove_dashes-hex, remove_dashes-append, hex-append, reverse-AreBytes,
  length-reverse,
}
use gatt.Android.GattServer.Opening.{format_uuid_for_java, base_suffix, dashed}

-- The last twelve bytes of the Bluetooth base UUID, the least significant first.
abbrev pub base_bytes : List ℕ
base_bytes = 0xfb ∷ 0x34 ∷ 0x9b ∷ 0x5f ∷ 0x80 ∷ 0 ∷ 0 ∷ 0x80 ∷ 0 ∷ 0x10 ∷ 0 ∷ 0 ∷ []

-- The 128-bit form of a UUID of 2 bytes.
unfoldable pub expand : List ℕ → List ℕ
expand b = if length b == 2 then base_bytes ++ (b ++ (0 ∷ 0 ∷ [])) else b

length-expand : (b : List ℕ) → (length b ≡ 2) ⊎ (length b ≡ 16) → length (expand b) ≡ 16
unfolding expand
length-expand b (inl two) =
    let t : (length b == 2) ≡ true = ground arith in
    rw t (omega (arith, length-append b (0 ∷ 0 ∷ []), two))
length-expand b (inr sixteen) = let f : (length b == 2) ≡ false = ground arith in rw f sixteen

base_bytes-AreBytes : AreBytes base_bytes
base_bytes-AreBytes = ground arith

remove_dashes-base_suffix : remove_dashes base_suffix ≡ hex (reverse base_bytes)
unfolding remove_dashes hex
remove_dashes-base_suffix = refl

dash_step :
    (s t r : List ℕ)
    → AreBytes s
    → remove_dashes t ≡ hex r
    → remove_dashes (hex s ++ t) ≡ hex (s ++ r)
dash_step s t r h e =
    remove_dashes-append (hex s) t
    ∙ ap (λ x. x ++ remove_dashes t) (remove_dashes-hex s h)
    ∙ ap (λ x. hex s ++ x) e
    ∙ sym (hex-append s r)

short-hex :
    (r : List ℕ)
    → AreBytes r
    → remove_dashes (48 ∷ 48 ∷ 48 ∷ 48 ∷ (hex r ++ base_suffix))
      ≡ hex (0 ∷ 0 ∷ (r ++ reverse base_bytes))
unfolding remove_dashes hex
short-hex r h =
    ap (λ x. 48 ∷ 48 ∷ 48 ∷ 48 ∷ x)
      (dash_step r base_suffix (reverse base_bytes) h remove_dashes-base_suffix)

take-AreBytes : (n : ℕ) (xs : List ℕ) → AreBytes xs → AreBytes (take n xs)
take-AreBytes zero xs h = tt
take-AreBytes (suc n) [] h = tt
take-AreBytes (suc n) (x ∷ xs) h = (h.0, take-AreBytes n xs h.1)

drop-AreBytes : (n : ℕ) (xs : List ℕ) → AreBytes xs → AreBytes (drop n xs)
drop-AreBytes zero xs h = h
drop-AreBytes (suc n) [] h = tt
drop-AreBytes (suc n) (x ∷ xs) h = drop-AreBytes n xs h.1

pieces : (n : ℕ) (be : List ℕ) → take 2 (drop n be) ++ drop (n + 2) be ≡ drop n be
pieces n be =
    ap (λ r. take 2 (drop n be) ++ r) (sym (drop-drop 2 n be)) ∙ take-append-drop 2 (drop n be)

dashed-hex : (be : List ℕ) → AreBytes be → remove_dashes (dashed be) ≡ hex be
unfolding dashed remove_dashes
dashed-hex be h =
    dash_step (take 4 be)
      (45
        ∷ (hex (take 2 (drop 4 be))
            ++ (45
                ∷ (hex (take 2 (drop 6 be))
                    ++ (45 ∷ (hex (take 2 (drop 8 be)) ++ (45 ∷ hex (drop 10 be))))))))
      (drop 4 be) (take-AreBytes 4 be h)
      (step 4 _ (step 6 _ (step 8 _ (remove_dashes-hex (drop 10 be) (drop-AreBytes 10 be h)))))
    ∙ ap hex (take-append-drop 4 be)
  where
    step :
        (n : ℕ) (t : List ℕ)
        → remove_dashes t ≡ hex (drop (n + 2) be)
        → remove_dashes (hex (take 2 (drop n be)) ++ t) ≡ hex (drop n be)
    step n t e =
        dash_step (take 2 (drop n be)) t (drop (n + 2) be)
          (take-AreBytes 2 (drop n be) (drop-AreBytes n be h)) e
        ∙ ap hex (pieces n be)

pub parse_uuid-format :
    (u : Uuid)
    → AreBytes u.b
    → (length u.b ≡ 2) ⊎ (length u.b ≡ 16)
    → parse_uuid (format_uuid_for_java u) ≡ some (record { b = expand u.b })
unfolding format_uuid_for_java expand
parse_uuid-format u h (inl two) =
    let t : (length u.b == 2) ≡ true = ground arith in
    let r = reverse (base_bytes ++ (u.b ++ (0 ∷ 0 ∷ []))) in
    let parts : r ≡ 0 ∷ 0 ∷ (reverse u.b ++ reverse base_bytes) =
      reverse-append base_bytes (u.b ++ (0 ∷ 0 ∷ []))
      ∙ ap (λ x. x ++ reverse base_bytes) (reverse-append u.b (0 ∷ 0 ∷ [])) in
    rw t (
      parse_uuid-hex (48 ∷ 48 ∷ 48 ∷ 48 ∷ (hex (reverse u.b) ++ base_suffix)) r
        (short-hex (reverse u.b) (reverse-AreBytes u.b h) ∙ ap hex (sym parts))
        (reverse-AreBytes (base_bytes ++ (u.b ++ (0 ∷ 0 ∷ []))) bytes) (inr (sixteen two))
      ∙ ap (λ b. some (record { b = b })) (reverse-reverse (base_bytes ++ (u.b ++ (0 ∷ 0 ∷ [])))))
  where
    bytes : AreBytes (base_bytes ++ (u.b ++ (0 ∷ 0 ∷ [])))
    bytes =
        All-append (λ b. b < 256) base_bytes (u.b ++ (0 ∷ 0 ∷ [])) base_bytes-AreBytes
          (All-append (λ b. b < 256) u.b (0 ∷ 0 ∷ []) h (omega arith, (omega arith, tt)))

    sixteen : length u.b ≡ 2 → length (reverse (base_bytes ++ (u.b ++ (0 ∷ 0 ∷ [])))) ≡ 16
    sixteen two = omega (
      arith,
      length-reverse (base_bytes ++ (u.b ++ (0 ∷ 0 ∷ []))),
      length-append base_bytes (u.b ++ (0 ∷ 0 ∷ [])),
      length-append u.b (0 ∷ 0 ∷ []),
      two,
    )
parse_uuid-format u h (inr sixteen) =
    let f : (length u.b == 2) ≡ false = ground arith in
    let t : (length u.b == 16) ≡ true = ground arith in
    rw (f, t)
      (parse_uuid-hex (dashed (reverse u.b)) (reverse u.b)
          (dashed-hex (reverse u.b) (reverse-AreBytes u.b h)) (reverse-AreBytes u.b h)
          (inr (length-reverse u.b ∙ sixteen))
        ∙ ap (λ b. some (record { b = b })) (reverse-reverse u.b))

none_of :
    (v : Uuid) (us : List Uuid)
    → length v.b ≡ 16
    → All (λ (w : Uuid). length w.b ≡ 2) us
    → contains_loop us v ≡ false
unfolding contains_loop equal
none_of v [] l s = refl
none_of v (w ∷ ws) l s = elim (Bool-cases (bytes_equal w.b v.b)) [
  | inl t ↦
      let one = ap length ((bytes_equal_iff w.b v.b).0 t) in absurd (omega (arith, one, s.0, l))
  | inr t ↦ rw t (none_of v ws l s.1)
]

-- ParseUUID reads the text that formatUUIDForJava writes of a UUID of 2 or 16 bytes as its 128-bit
-- form, which UUIDContains finds in no list of UUIDs of 2 bytes, even if this UUID is in it.
pub parse_uuid-format_unmatched :
    (u : Uuid) (us : List Uuid)
    → AreBytes u.b
    → (length u.b ≡ 2) ⊎ (length u.b ≡ 16)
    → All (λ (w : Uuid). length w.b ≡ 2) us
    → (parse_uuid (format_uuid_for_java u) ≡ some (record { b = expand u.b }))
      × (uuid_contains (some us) (record { b = expand u.b }) ≡ false)
unfolding uuid_contains
parse_uuid-format_unmatched u us h l short =
    (parse_uuid-format u h l, none_of (record { b = expand u.b }) us (length-expand u.b l) short)
