-- ===== src/Hci/L2cap/Termination.antt =====
-- linux/l2cap.go: the inner loop of conn.loop ends.
use gatt.Prelude.{
  ℕ, zero, suc, ◌+◌, ◌*◌, ◌≤◌, ◌≡◌, refl, ap, ◌∙◌, List, [], ◌∷◌, Bool, true, arith, length,
  length-drop, drop, ltb, ◌==◌, Bool-cases, inl, inr,
}
use gatt.Hci.L2cap.{drain, Reassembled, signal_cid, deliver}

-- The condition on which the loop ends: there is no complete PDU in the buffer.
abbrev pub incomplete : List ℕ → Bool
incomplete [] = true
incomplete (b0 ∷ []) = true
incomplete (b0 ∷ b1 ∷ []) = true
incomplete (b0 ∷ b1 ∷ b2 ∷ []) = true
incomplete (b0 ∷ b1 ∷ b2 ∷ b3 ∷ rest) = ltb (length rest) (b0 + b1 * 256)

drain-fuel : (f g : ℕ) (buf : List ℕ) → length buf ≤ f → length buf ≤ g → drain f buf ≡ drain g buf
unfolding drain
drain-fuel zero zero buf h k = refl
drain-fuel zero (suc g) [] h k = refl
drain-fuel zero (suc g) (x ∷ buf) h k = absurd (omega arith)
drain-fuel (suc f) zero [] h k = refl
drain-fuel (suc f) zero (x ∷ buf) h k = absurd (omega arith)
drain-fuel (suc f) (suc g) [] h k = refl
drain-fuel (suc f) (suc g) (b0 ∷ []) h k = refl
drain-fuel (suc f) (suc g) (b0 ∷ b1 ∷ []) h k = refl
drain-fuel (suc f) (suc g) (b0 ∷ b1 ∷ b2 ∷ []) h k = refl
drain-fuel (suc f) (suc g) (b0 ∷ b1 ∷ b2 ∷ b3 ∷ rest) h k =
    let left = length-drop (b0 + b1 * 256) rest in
    rw (drain-fuel f g (drop (b0 + b1 * 256) rest) (omega arith) (omega arith)) refl

deliver-buf : (cid : ℕ) (pdu : List ℕ) (r : Reassembled) → (deliver cid pdu r).buf ≡ r.buf
deliver-buf cid pdu r = elim (Bool-cases (cid == signal_cid)) [
  | inl e ↦ rw e refl
  | inr e ↦ rw e refl
]

drain-incomplete : (f : ℕ) (buf : List ℕ) → length buf ≤ f → incomplete (drain f buf).buf ≡ true
unfolding drain
drain-incomplete zero [] h = refl
drain-incomplete zero (x ∷ buf) h = absurd (omega arith)
drain-incomplete (suc f) [] h = refl
drain-incomplete (suc f) (b0 ∷ []) h = refl
drain-incomplete (suc f) (b0 ∷ b1 ∷ []) h = refl
drain-incomplete (suc f) (b0 ∷ b1 ∷ b2 ∷ []) h = refl
drain-incomplete (suc f) (b0 ∷ b1 ∷ b2 ∷ b3 ∷ rest) h =
    let left = length-drop (b0 + b1 * 256) rest in
    elim (Bool-cases (ltb (length rest) (b0 + b1 * 256))) [
      | inl e ↦ rw e e
      | inr e ↦ rw e (
          ap incomplete (deliver-buf (b2 + b3 * 256) _ (drain f (drop (b0 + b1 * 256) rest)))
          ∙ drain-incomplete f (drop (b0 + b1 * 256) rest) (omega arith))
    ]

-- The inner loop of conn.loop ends on every buffer, after at most as many rounds as the buffer has
-- bytes: with this much fuel or more, what it gives does not depend on the fuel, and no complete PDU is
-- left in the buffer.
pub drain-ends :
    (f : ℕ) (buf : List ℕ)
    → length buf ≤ f
    → (drain f buf ≡ drain (length buf) buf) × (incomplete (drain f buf).buf ≡ true)
drain-ends f buf h = (drain-fuel f (length buf) buf h (omega arith), drain-incomplete f buf h)
