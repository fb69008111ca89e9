-- ===== src/Hci/L2cap/Reassembly.antt =====
-- The reassembly buffer against one PDU: a proper prefix of the PDU stays, the whole PDU is passed on.
use gatt.Prelude.{
  ℕ, zero, suc, ◌+◌, ◌*◌, ◌%◌, ◌/◌, ◌<◌, ◌≡◌, ◌≢◌, refl, ap, List, [], ◌∷◌, ◌++◌, false, arith,
  length, length-append, drop, take_all, drop_all, lt→ltb, le→ltb, ◌==◌, put_uint16,
}
use gatt.Hci.L2cap.{drain, signal_cid}

-- An L2CAP PDU: its length, its channel and its payload.
abbrev pub l2cap_pdu : ℕ → List ℕ → List ℕ
l2cap_pdu cid b = put_uint16 (length b) ++ put_uint16 cid ++ b

abbrev byte_at : ℕ → List ℕ → ℕ
byte_at i [] = 0
byte_at zero (x ∷ xs) = x
byte_at (suc i) (x ∷ xs) = byte_at i xs

-- A buffer that lacks `missing` bytes of the PDU waits.
pub drain_prefix :
    (fuel cid x : ℕ) (b buf missing : List ℕ)
    → length b < 65536
    → buf ++ (x ∷ missing) ≡ l2cap_pdu cid b
    → drain fuel buf ≡ record { buf = buf; pdus = [] }
unfolding drain
drain_prefix zero cid x b buf missing short e = refl
drain_prefix (suc fuel) cid x b [] missing short e = refl
drain_prefix (suc fuel) cid x b (b0 ∷ []) missing short e = refl
drain_prefix (suc fuel) cid x b (b0 ∷ b1 ∷ []) missing short e = refl
drain_prefix (suc fuel) cid x b (b0 ∷ b1 ∷ b2 ∷ []) missing short e = refl
drain_prefix (suc fuel) cid x b (b0 ∷ b1 ∷ b2 ∷ b3 ∷ rest) missing short e =
    let low : b0 ≡ length b % 256 = ap (byte_at 0) e in
    let high : b1 ≡ length b / 256 % 256 = ap (byte_at 1) e in
    let size : length (rest ++ (x ∷ missing)) ≡ length b =
      ap (λ (l : List ℕ). length (drop 4 l)) e in
    let sum = length-append rest (x ∷ missing) in
    let less : length rest < b0 + b1 * 256 = omega (arith, low, high, size, sum) in
    rw (lt→ltb (length rest) (b0 + b1 * 256) less) refl

drain-nil : (fuel : ℕ) → drain fuel [] ≡ record { buf = []; pdus = [] }
unfolding drain
drain-nil zero = refl
drain-nil (suc fuel) = refl

-- A buffer that holds the PDU passes its payload on, unless it is a signal, and is empty then.
pub drain_whole :
    (fuel cid : ℕ) (b : List ℕ)
    → length b < 65536
    → cid < 65536
    → cid ≢ signal_cid
    → drain (suc fuel) (l2cap_pdu cid b) ≡ record { buf = []; pdus = b ∷ [] }
unfolding drain
drain_whole fuel cid b short small channel =
    let size : length b % 256 + length b / 256 % 256 * 256 ≡ length b = omega arith in
    let dest : cid % 256 + cid / 256 % 256 * 256 ≡ cid = omega arith in
    let other : (cid == signal_cid) ≡ false = ground arith in
    rw (size, dest, other, le→ltb (length b) (length b) (omega arith))
      (rw (drop_all (length b) b (omega arith), take_all (length b) b (omega arith), drain-nil fuel)
        refl)
