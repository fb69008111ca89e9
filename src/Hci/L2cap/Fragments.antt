-- ===== src/Hci/L2cap/Fragments.antt =====
-- The packets of conn.write, as the other side reads them.
use Prim.Native.Nat.{bit_or}
use gatt.Prelude.{
  ℕ, zero, suc, ◌+◌, ◌*◌, ◌%◌, ◌/◌, ◌≤◌, ◌<◌, ◌≡◌, refl, List, Bool, true, some, arith, length,
  length-take, length-drop, take, drop, ◌==◌, ==_iff, if◌then◌else◌, Bool-cases, inl, inr, false,
}
use gatt.Hci.L2cap.{unmarshal, header}

-- Two functions agree on the numbers below a bound.
abbrev agree_below : (ℕ → ℕ) → (ℕ → ℕ) → ℕ → Bool
agree_below f g zero = true
agree_below f g (suc k) = if f k == g k then agree_below f g k else false

agree_below_lem : (f g : ℕ → ℕ) (k x : ℕ) → x < k → agree_below f g k ≡ true → f x ≡ g x
agree_below_lem f g zero x below e = absurd (omega arith)
agree_below_lem f g (suc k) x below e = elim (Bool-cases (f k == g k)) [
  | inr differ ↦ let no : false ≡ true = rw differ at e in cc
  | inl same ↦ elim (Bool-cases (x == k)) [
    | inl last ↦ let here = (==_iff x k).0 last in rw here ((==_iff (f k) (g k)).0 same)
    | inr before ↦
        let rest : agree_below f g k ≡ true = rw same at e in
        let lower : x < k = ground arith in agree_below_lem f g k x lower rest
  ]
]

-- The flag lies above the four high bits of a connection handle.
pub bit_or_flag : (x : ℕ) → x < 16 → (bit_or x 0 ≡ x) × (bit_or x 16 ≡ x + 16)
bit_or_flag x h = (
  agree_below_lem (λ y. bit_or y 0) (λ y. y) 16 x h refl,
  agree_below_lem (λ y. bit_or y 16) (λ y. y + 16) 16 x h refl,
)

-- What is read from a packet of `d` bytes: the handle, the boundary flag, and those bytes.
pub unmarshal_fragment :
    (attr flag d bits : ℕ) (w : List ℕ)
    → attr < 4096
    → d < 65536
    → 5 + d ≤ length w
    → bit_or (attr / 256 % 256) flag ≡ attr / 256 + bits * 16
    → bits < 16
    → unmarshal (drop 1 (take (5 + d) (header attr flag d w)))
      ≡ some (record { attr = attr; flags = bits; d_len = d; b = take d (drop 5 w) })
unfolding unmarshal
unmarshal_fragment attr flag d bits w ha hd hw e hb =
    let five : 5 + d ≡ suc (suc (suc (suc (suc d)))) = omega arith in
    let low : (attr / 256 + bits * 16) % 16 ≡ attr / 256 = omega arith in
    let high : (attr / 256 + bits * 16) / 16 ≡ bits = omega arith in
    let handle : attr % 256 + attr / 256 * 256 ≡ attr = omega arith in
    let size : d % 256 + d / 256 % 256 * 256 ≡ d = omega arith in
    let read : length (take d (drop 5 w)) ≡ d =
      omega (arith, length-take d (drop 5 w), length-drop 5 w) in
    let agrees = (==_iff (length (take d (drop 5 w))) d).1 read in
    rw (five, e) (rw (low, high, handle, size) (rw agrees refl))
