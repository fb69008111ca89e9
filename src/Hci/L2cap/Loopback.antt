-- ===== src/Hci/L2cap/Loopback.antt =====
-- What conn.write sends, conn.loop of the other side receives.
use Prim.Native.Nat.{bit_or}
use gatt.Prelude.{
  ℕ, zero, suc, ◌+◌, ◌-◌, ◌*◌, ◌%◌, ◌/◌, ◌≤◌, ◌<◌, ◌≡◌, ◌≢◌, refl, sym, ap, ◌∙◌, List, [], ◌∷◌,
  ◌++◌, false, none, some, arith, length, length-take, length-drop, take, drop, take-append-drop,
  drop-drop, append_assoc, ltb, ◌==◌, if◌then◌else◌, Bool-cases, inl, inr, ==_iff, take_all,
}
use gatt.Hci.L2cap.{
  AclData, unmarshal, drain, receive_acl, receive_all, header, write_loop, write, signal_cid,
}
use gatt.Hci.L2cap.Reassembly.{l2cap_pdu, drain_prefix, drain_whole}
use gatt.Hci.L2cap.Fragments.{bit_or_flag, unmarshal_fragment}

-- The ACL packets among what arrives at the other side's handleL2CAP, which drops malformed ones; the
-- first byte is the packet type.
abbrev pub acl_packets : List (List ℕ) → List AclData
acl_packets [] = []
acl_packets (p ∷ ps) = elim (unmarshal (drop 1 p)) [
  | none ↦ acl_packets ps
  | some a ↦ a ∷ acl_packets ps
]

module _ (s attr cid : ℕ) (b : List ℕ) where
  -- The parameters of the connection, and a payload that the length field can describe.
  pub record Fits : Type 0 where
    pub sends : 1 ≤ s
    pub size : s < 65536
    pub handle : attr < 4096
    pub channel : cid < 65536
    pub data_channel : cid ≢ signal_cid
    pub short : length b < 65536

  -- The first packet starts a PDU, on any buffer; the others go on with the buffer.
  data Mode : ℕ → ℕ → List ℕ → List ℕ → Type 0 where
    starting : (buf : List ℕ) → Mode 0 0 buf []
    continuing : (buf : List ℕ) → Mode 16 1 buf buf

  abbrev fragment : ℕ → ℕ → List ℕ → AclData
  fragment bits d c = record { attr = attr; flags = bits; d_len = d; b = c }

  -- A packet drains its piece `c` behind the part `front` that has arrived.
  receive_piece :
      {flag bits : ℕ} {buf front : List ℕ} (d : ℕ) (c : List ℕ)
      → Mode flag bits buf front
      → 1 ≤ length c
      → receive_acl buf (fragment bits d c) ≡ drain (length (front ++ c)) (front ++ c)
  unfolding receive_acl
  receive_piece d c (starting buf) some_bytes =
      let not_empty : (length c == 0) ≡ false = ground arith in rw not_empty refl
  receive_piece d c (continuing buf) some_bytes =
      let not_empty : (length c == 0) ≡ false = ground arith in rw not_empty refl

  -- The last piece completes the PDU.
  drain_last :
      (arrived : List ℕ)
      → Fits
      → arrived ≡ l2cap_pdu cid b
      → drain (length arrived) arrived ≡ record { buf = []; pdus = b ∷ [] }
  drain_last arrived f whole = rw whole (drain_whole _ cid b f.short f.channel f.data_channel)

  -- Any other leaves the buffer waiting.
  drain_more :
      (arrived missing : List ℕ)
      → Fits
      → 1 ≤ length missing
      → arrived ++ missing ≡ l2cap_pdu cid b
      → drain (length arrived) arrived ≡ record { buf = arrived; pdus = [] }
  drain_more arrived [] f h whole = absurd (omega arith)
  drain_more arrived (x ∷ missing) f h whole = drain_prefix _ cid x b arrived missing f.short whole

  abbrev piece : ℕ → ℕ
  piece n = if ltb s n then s else n

  piece_bounds : (n : ℕ) → Fits → 1 ≤ n → (1 ≤ piece n) × (piece n ≤ n) × (piece n < 65536)
  piece_bounds n f h = let a = f.sends in let z = f.size in ground arith

  write_loop_done : (fuel : ℕ) (w : List ℕ) (flag : ℕ) → write_loop fuel s attr w 0 flag ≡ []
  unfolding write_loop
  write_loop_done zero w flag = refl
  write_loop_done (suc fuel) w flag = refl

  Mode-bits :
      {flag bits : ℕ} {buf front : List ℕ}
      → Mode flag bits buf front
      → Fits
      → (bit_or (attr / 256 % 256) flag ≡ attr / 256 + bits * 16) × (bits < 16)
  Mode-bits (starting buf) f =
      let table = bit_or_flag (attr / 256 % 256) (omega (arith, f.handle)) in
      (omega (arith, table, f.handle), omega arith)
  Mode-bits (continuing buf) f =
      let table = bit_or_flag (attr / 256 % 256) (omega (arith, f.handle)) in
      (omega (arith, table, f.handle), omega arith)

  -- One round of the loop of conn.write, as it arrives.
  write_loop_round :
      (fuel n : ℕ) {flag bits : ℕ} {buf front : List ℕ} (w : List ℕ)
      → Fits
      → Mode flag bits buf front
      → 1 ≤ n
      → length w ≡ 5 + n
      → acl_packets (write_loop (suc fuel) s attr w n flag)
        ≡ fragment bits (piece n) (take (piece n) (drop 5 w))
          ∷ acl_packets (
              write_loop fuel s attr
                (drop (piece n) (header attr flag (piece n) w))
                (n - piece n)
                0x10)
  unfolding write_loop
  write_loop_round fuel n {flag} {bits} w f mode some_left size =
      let not_done : (n == 0) ≡ false = ground arith in
      let (low, high, fits) = piece_bounds n f some_left in
      let (flags, few) = Mode-bits mode f in
      let read =
        unmarshal_fragment attr flag (piece n) bits w f.handle fits (omega arith) flags few in
      rw not_done (rw (read, acl_packets) refl)

  -- The next round's data lie behind the piece that was sent.
  drop-header :
      (flag d : ℕ) (w : List ℕ) → drop 5 (drop d (header attr flag d w)) ≡ drop d (drop 5 w)
  drop-header flag d w =
      let swap : d + 5 ≡ 5 + d = omega arith in
      drop-drop 5 d (header attr flag d w)
      ∙ ap (λ k. drop k (header attr flag d w)) swap
      ∙ sym (drop-drop d 5 (header attr flag d w))

  -- The packets from the part of the PDU in `w` on complete what has arrived.
  write_loop-receive :
      (fuel n : ℕ) {flag bits : ℕ} {buf front : List ℕ} (w : List ℕ)
      → Fits
      → Mode flag bits buf front
      → 1 ≤ n
      → n ≤ fuel
      → length w ≡ 5 + n
      → front ++ drop 5 w ≡ l2cap_pdu cid b
      → receive_all buf (acl_packets (write_loop fuel s attr w n flag))
        ≡ record { buf = []; pdus = b ∷ [] }
  unfolding receive_all
  write_loop-receive zero n w f mode some_left enough size whole = absurd (omega arith)
  write_loop-receive (suc fuel) n {flag} {bits} {buf} {front} w f mode some_left enough size whole =
      let d : ℕ = piece n in
      let (low, high, fits) = piece_bounds n f some_left in
      let c = take d (drop 5 w) in
      let missing = drop d (drop 5 w) in
      let length_c = length-take d (drop 5 w) in
      let length_w = length-drop 5 w in
      let w' = drop d (header attr flag d w) in
      rw (write_loop_round fuel n w f mode some_left size) (
        rw (receive_piece d c mode (omega (arith, length_c, length_w)))
          (elim (Bool-cases (n - d == 0)) [
            | inl last ↦
                let all_sent : n - d ≡ 0 = (==_iff (n - d) 0).0 last in
                let e : front ++ c ≡ l2cap_pdu cid b =
                  ap (λ r. front ++ r) (take_all d (drop 5 w) (omega (arith, length_w))) ∙ whole in
                rw (drain_last (front ++ c) f e, all_sent) (rw (write_loop_done fuel w' 16) refl)
            | inr more ↦
                let left : 1 ≤ n - d = ground arith in
                let length_missing = length-drop d (drop 5 w) in
                let e : (front ++ c) ++ missing ≡ l2cap_pdu cid b =
                  append_assoc front c missing
                  ∙ ap (λ r. front ++ r) (take-append-drop d (drop 5 w))
                  ∙ whole in
                let e' : (front ++ c) ++ drop 5 w' ≡ l2cap_pdu cid b =
                  ap (λ r. (front ++ c) ++ r) (drop-header flag d w) ∙ e in
                let size' : length w' ≡ 5 + (n - d) =
                  omega (arith, length-drop d (header attr flag d w), length_w) in
                rw (drain_more (front ++ c) missing f (omega (arith, length_missing, length_w)) e) (
                  rw
                    (write_loop-receive fuel (n - d) w' f (continuing (front ++ c)) left
                      (omega arith) size' e')
                    refl)
          ]))

-- The packets that conn.write sends for a payload on a channel other than the signals', whatever the
-- controller's buffer size from one byte on, bring exactly this payload to the reader on the other
-- side, whatever was in its reassembly buffer before, and leave that buffer empty. The payload is
-- shorter than 65536 bytes, the buffer size and the channel are 16-bit numbers, and the connection
-- handle has 12 bits.
pub receive_all-write :
    (s attr cid : ℕ) (b buf : List ℕ)
    → Fits s attr cid b
    → receive_all buf (acl_packets (write s attr cid b)) ≡ record { buf = []; pdus = b ∷ [] }
unfolding write
receive_all-write s attr cid b buf f =
    write_loop-receive s attr cid b (4 + length b) (4 + length b)
      (0 ∷ 0 ∷ 0 ∷ 0 ∷ 0 ∷ l2cap_pdu cid b) f (starting buf) (omega arith) (omega arith)
      (omega arith) refl
