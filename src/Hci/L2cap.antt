-- ===== src/Hci/L2cap.antt =====
-- linux/l2cap.go: ACL packets, and the logical channels of a connection over them.
pub mod Reassembly
pub mod Fragments
pub mod Loopback
pub mod Termination
use gatt.Prelude.{
  ℕ, zero, suc, ◌+◌, ◌-◌, ◌*◌, ◌%◌, ◌/◌, ◌≤◌, List, [], ◌∷◌, ◌++◌, Bool, true, false, Option, none,
  some, not, bit_or, length, take, drop, ltb, leb, ◌==◌, if◌then◌else◌,
}

-- The connection handle is `attr` in the source.
pub record AclData : Type 0 where
  pub attr : ℕ
  pub flags : ℕ
  pub d_len : ℕ
  pub b : List ℕ

-- On bytes `b1 & 0x0f` is `b1 % 16`, `b1 >> 4` is `b1 / 16`, and `|` of disjoint bits is `+`.
abbrev acl_data : ℕ → ℕ → ℕ → ℕ → List ℕ → Option AclData
acl_data b0 b1 b2 b3 rest =
    let d_len = b2 + b3 * 256 in
    if length rest == d_len
    then some (record { attr = b0 + b1 % 16 * 256; flags = b1 / 16; d_len = d_len; b = rest })
    else none

-- `none` is the error of a malformed packet.
unfoldable pub unmarshal : List ℕ → Option AclData
unmarshal [] = none
unmarshal (b0 ∷ []) = none
unmarshal (b0 ∷ b1 ∷ []) = none
unmarshal (b0 ∷ b1 ∷ b2 ∷ []) = none
unmarshal (b0 ∷ b1 ∷ b2 ∷ b3 ∷ rest) = acl_data b0 b1 b2 b3 rest

-- The bytes left in the buffer, and the PDUs passed on to the reader (dataCh) in order.
pub record Reassembled : Type 0 where
  pub buf : List ℕ
  pub pdus : List (List ℕ)

-- The channel of the signals, which are not passed on.
abbrev pub signal_cid : ℕ
signal_cid = 5

abbrev deliver : ℕ → List ℕ → Reassembled → Reassembled
deliver cid pdu r = if cid == signal_cid then r else record r { pdus = pdu ∷ r.pdus }

-- The inner loop of conn.loop: it takes complete PDUs off the buffer. Each round takes four bytes or
-- more, so the length of the buffer is fuel enough.
unfoldable pub drain : ℕ → List ℕ → Reassembled
drain zero buf = record { buf = buf; pdus = [] }
drain (suc fuel) [] = record { buf = []; pdus = [] }
drain (suc fuel) (b0 ∷ []) = record { buf = b0 ∷ []; pdus = [] }
drain (suc fuel) (b0 ∷ b1 ∷ []) = record { buf = b0 ∷ b1 ∷ []; pdus = [] }
drain (suc fuel) (b0 ∷ b1 ∷ b2 ∷ []) = record { buf = b0 ∷ b1 ∷ b2 ∷ []; pdus = [] }
drain (suc fuel) (b0 ∷ b1 ∷ b2 ∷ b3 ∷ rest) =
    let t_len = b0 + b1 * 256 in
    let more = drain fuel (drop t_len rest) in
    if ltb (length rest) t_len
    then record { buf = b0 ∷ b1 ∷ b2 ∷ b3 ∷ rest; pdus = [] }
    else deliver (b2 + b3 * 256) (take t_len rest) more

-- One round of conn.loop: a packet with data; `(a.flags & 0x3) != 0x1` starts a new buffer.
unfoldable pub receive_acl : List ℕ → AclData → Reassembled
receive_acl buf a =
    if length a.b == 0
    then record { buf = buf; pdus = [] }
    else (let buf' = if not (a.flags % 4 == 1) then a.b else buf ++ a.b in drain (length buf') buf')

-- conn.loop over the packets that arrive.
unfoldable pub receive_all : List ℕ → List AclData → Reassembled
receive_all buf [] = record { buf = buf; pdus = [] }
receive_all buf (a ∷ packets) =
    let first = receive_acl buf a in
    let rest = receive_all first.buf packets in record rest { pdus = first.pdus ++ rest.pdus }

-- The header that conn.write puts over the first five bytes of `w`.
abbrev pub header : ℕ → ℕ → ℕ → List ℕ → List ℕ
header attr flag d_len w =
    0x02 ∷ attr % 256 ∷ bit_or (attr / 256 % 256) flag ∷ d_len % 256 ∷ d_len / 256 % 256 ∷ drop 5 w

-- The loop of conn.write: the packets written to the device. `n` falls in each round for a buffer
-- size of at least one byte, so `n` is fuel enough. The wait for the controller's buffers is left out.
unfoldable pub write_loop : ℕ → ℕ → ℕ → List ℕ → ℕ → ℕ → List (List ℕ)
write_loop zero buf_size attr w n flag = []
write_loop (suc fuel) buf_size attr w n flag =
    let d_len = if ltb buf_size n then buf_size else n in
    let w' = header attr flag d_len w in
    let rest = write_loop fuel buf_size attr (drop d_len w') (n - d_len) 0x10 in
    if n == 0 then [] else take (5 + d_len) w' ∷ rest

-- conn.write on a channel: the payload behind the L2CAP header, behind the place of the ACL header.
unfoldable pub write : ℕ → ℕ → ℕ → List ℕ → List (List ℕ)
write buf_size attr cid b =
    let t_len = length b in
    let w =
      0 ∷ 0 ∷ 0 ∷ 0 ∷ 0 ∷ t_len % 256 ∷ (t_len / 256 % 256) ∷ cid % 256 ∷ (cid / 256 % 256) ∷ b in
    write_loop (4 + t_len) buf_size attr w (4 + t_len) 0

-- The buffer size that NewHCI sets.
abbrev pub hci_buf_size : ℕ
hci_buf_size = 27
