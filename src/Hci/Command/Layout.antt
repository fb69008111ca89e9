-- ===== src/Hci/Command/Layout.antt =====
-- The fields of every command lie end to end in its packet.
use gatt.Prelude.{
  ℕ, zero, suc, ◌+◌, ◌-◌, ◌/◌, ◌%◌, ◌≤◌, ◌≡◌, refl, ap, ◌∙◌, List, [], ◌∷◌, ◌++◌, arith, ok, length,
  length-append, length-take, length-replicate, take, drop, take_left, take_all, replicate, le→leb,
  append_assoc, append-nil,
}
use gatt.Hci.Command.{
  CmdParam, Write, put, copy, overwrite, run_write, run_writes, marshal, packet,
  packet_type_command,
}
use gatt.Hci.Command.Any.{Command, cmd_param, IsWellFormed, disconnect}

abbrev pub content : Write → List ℕ
content (put at x) = x
content (copy at n a) = take n a

abbrev pub contents : List Write → List ℕ
contents [] = []
contents (w ∷ ws) = content w ++ contents ws

-- The writes start at `p`, each where the one before it ends, and `k` bytes are enough for them.
abbrev LaidOut : ℕ → ℕ → List Write → Type 0
LaidOut p k [] = Unit
LaidOut p k (put at x ∷ ws) = (at ≡ p) × (length x ≤ k) × LaidOut (p + length x) (k - length x) ws
LaidOut p k (copy at n a ∷ ws) = (at ≡ p) × (n ≤ length a) × (n ≤ k) × LaidOut (p + n) (k - n) ws

abbrev pub zeros : ℕ → List ℕ
zeros k = replicate k 0

drop-zeros : (n k : ℕ) → drop n (zeros k) ≡ zeros (k - n)
drop-zeros zero k = let e : k - 0 ≡ k = omega arith in rw e refl
drop-zeros (suc n) zero = let e : 0 - suc n ≡ 0 = omega arith in rw e refl
drop-zeros (suc n) (suc k) = let e : suc k - suc n ≡ k - n = omega arith in rw e (drop-zeros n k)

drop_behind : (xs ys : List ℕ) (n : ℕ) → drop (length xs + n) (xs ++ ys) ≡ drop n ys
drop_behind [] ys n = let e : 0 + n ≡ n = omega arith in rw e refl
drop_behind (x ∷ xs) ys n =
    let e : suc (length xs) + n ≡ suc (length xs + n) = omega arith in rw e (drop_behind xs ys n)

overwrite_lem :
    (xs x : List ℕ) (k : ℕ)
    → overwrite (length xs) x (xs ++ zeros k) ≡ (xs ++ x) ++ zeros (k - length x)
overwrite_lem xs x k =
    rw
      (
        take_left xs (zeros k),
        drop_behind xs (zeros k) (length x),
        drop-zeros (length x) k,
        append_assoc xs x (zeros (k - length x)),
      )
      refl

run_write_lem :
    (xs : List ℕ) (k : ℕ) (w : Write) (ws : List Write)
    → LaidOut (length xs) k (w ∷ ws)
    → (run_write w (xs ++ zeros k) ≡ ok ((xs ++ content w) ++ zeros (k - length (content w))))
      × LaidOut (length (xs ++ content w)) (k - length (content w)) ws
unfolding run_write
run_write_lem xs k (put at x) ws (start, room, rest) =
    let size = length-append xs (zeros k) in
    let size' = length-append xs x in
    let many = length-replicate {A = ℕ} k 0 in
    (
      rw (start, le→leb (length xs + length x) (length (xs ++ zeros k)) (omega arith))
          (ap ok (overwrite_lem xs x k)),
      rw size' rest,
    )
run_write_lem xs k (copy at n a) ws (start, whole, room, rest) =
    let size = length-append xs (zeros k) in
    let many = length-replicate {A = ℕ} k 0 in
    let cut = length-take n a in
    let same : length (take n a) ≡ n = omega arith in
    let size' = length-append xs (take n a) in
    let all = take_all (length (xs ++ zeros k) - length xs) (take n a) (omega arith) in
    (
      rw
          (
            start,
            le→leb (length xs) (length (xs ++ zeros k)) (omega arith),
            le→leb n (length a) whole,
          )
          (rw all (ap ok (overwrite_lem xs (take n a) k))),
      rw (size', same) rest,
    )

abbrev size : List Write → ℕ
size ws = length (contents ws)

content_fits :
    (p k : ℕ) (w : Write) (ws : List Write) → LaidOut p k (w ∷ ws) → length (content w) ≤ k
content_fits p k (put at x) ws h = h.1
content_fits p k (copy at n a) ws h = omega (arith, length-take n a, h.2)

run_writes-LaidOut :
    (xs : List ℕ) (k : ℕ) (ws : List Write)
    → LaidOut (length xs) k ws
    → (run_writes ws (xs ++ zeros k) ≡ ok (xs ++ contents ws ++ zeros (k - size ws)))
      × (size ws ≤ k)
unfolding run_writes
run_writes-LaidOut xs k [] h =
    let e : k - 0 ≡ k = omega arith in (rw (e, append-nil xs) refl, omega arith)
run_writes-LaidOut xs k (w ∷ ws) h =
    let one = run_write_lem xs k w ws h in
    let more = run_writes-LaidOut (xs ++ content w) (k - length (content w)) ws one.1 in
    let total = length-append (content w) (contents ws) in
    let left : k - length (content w) - size ws ≡ k - size (w ∷ ws) = omega arith in
    let fits : length (content w) ≤ k = content_fits (length xs) k w ws h in
    (rw one.0 (more.0 ∙ rw (left, append_assoc xs (content w) (contents ws)) refl), omega arith)

cmd_param-LaidOut :
    (c : Command) → IsWellFormed c → LaidOut 0 (cmd_param c).len (cmd_param c).writes
unfolding cmd_param
cmd_param-LaidOut (disconnect c) h = omega arith
cmd_param-LaidOut c h = omega arith

-- The parameters of a command: its fields, and zeros up to its length.
abbrev pub parameters : CmdParam → List ℕ
parameters c = contents c.writes ++ zeros (c.len - size c.writes)

-- The packet of every command whose arrays have their lengths is written without a panic: the packet
-- type, the opcode and the number of bytes that follow, and then the fields of the command end to end,
-- in the order in which they are written, each at its place, with zeros behind them up to the command's
-- length.
pub packet-parameters :
    (c : Command)
    → IsWellFormed c
    → (packet (cmd_param c)
        ≡ ok (
            packet_type_command
            ∷ (cmd_param c).opcode % 256
            ∷ ((cmd_param c).opcode / 256 % 256)
            ∷ length (parameters (cmd_param c)) % 256
            ∷ parameters (cmd_param c)))
      × (length (parameters (cmd_param c)) ≡ (cmd_param c).len)
unfolding packet marshal
packet-parameters c h =
    let p : CmdParam = cmd_param c in
    let laid = run_writes-LaidOut [] p.len p.writes (cmd_param-LaidOut c h) in
    let count : length (parameters p) ≡ p.len = omega (
      arith,
      laid.1,
      length-append (contents p.writes) (zeros (p.len - size p.writes)),
      length-replicate {A = ℕ} (p.len - size p.writes) 0,
    ) in
    (rw laid.0 (rw count refl), count)
