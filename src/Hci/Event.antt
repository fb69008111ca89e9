-- ===== src/Hci/Event.antt =====
-- linux/event/event.go: the events of the controller. binary.Read, of the standard library, takes the
-- bytes of a number off the buffer, or all that is left, with an error, where there are too few.
pub mod Code
pub mod Reports
pub mod Parameters
use gatt.Prelude.{
  ℕ, zero, suc, ◌+◌, ◌*◌, ◌%◌, List, [], ◌∷◌, Bool, true, false, Option, none, some, not, ◌||◌, Run,
  ok, panic, ◌>>=◌, length, take, drop, ltb, ◌==◌, if◌then◌else◌, from_option,
}
use gatt.Hci.Bytes.{Address, mac, number}

-- EventHeader.Unmarshal: the code, or `none` for its errors. The lengths are compared as bytes.
unfoldable pub header_code : List ℕ → Option ℕ
header_code [] = none
header_code (code ∷ []) = none
header_code (code ∷ p_len ∷ b) =
    if length (code ∷ p_len ∷ b) % 256 == (2 + p_len) % 256 then some code else none

-- binary.Read of a uint8 and of a uint16: the value, if it was read, and what is left.
abbrev pub read_uint8 : List ℕ → Option ℕ × List ℕ
read_uint8 [] = (none, [])
read_uint8 (x ∷ b) = (some x, b)

abbrev pub read_uint16 : List ℕ → Option ℕ × List ℕ
read_uint16 [] = (none, [])
read_uint16 (x ∷ []) = (none, [])
read_uint16 (x ∷ y ∷ b) = (some (x + y * 256), b)

-- A variable keeps its zero where the read fails.
abbrev pub or_zero : Option ℕ → ℕ
or_zero none = 0
or_zero (some v) = v

pub record DisconnectionComplete : Type 0 where
  pub status : ℕ
  pub connection_handle : ℕ
  pub reason : ℕ

-- Unmarshal: the errors of all reads but the last are ignored.
unfoldable pub disconnection_complete : List ℕ → Option DisconnectionComplete
disconnection_complete b =
    let (status, b1) = read_uint8 b in
    let (handle, b2) = read_uint16 b1 in
    let (reason, b3) = read_uint8 b2 in
    elim reason [
      | none ↦ none
      | some r ↦
          some (record { status = or_zero status; connection_handle = or_zero handle; reason = r })
    ]

pub record CommandComplete : Type 0 where
  pub num_hci_command_packets : ℕ
  pub command_op_code : ℕ
  pub return_parameters : List ℕ

unfoldable pub command_complete : List ℕ → Option CommandComplete
command_complete b =
    let (num, b1) = read_uint8 b in
    let (op, b2) = read_uint16 b1 in
    elim num [
      | none ↦ none
      | some n ↦ elim op [
        | none ↦ none
        | some o ↦
            some
              (record { num_hci_command_packets = n; command_op_code = o; return_parameters = b2 })
      ]
    ]

pub record CommandStatus : Type 0 where
  pub status : ℕ
  pub num_hci_command_packets : ℕ
  pub command_opcode : ℕ

unfoldable pub command_status : List ℕ → Option CommandStatus
command_status b =
    let (status, b1) = read_uint8 b in
    let (num, b2) = read_uint8 b1 in
    let (op, b3) = read_uint16 b2 in
    elim op [
      | none ↦ none
      | some o ↦ some (record {
        status = or_zero status;
        num_hci_command_packets = or_zero num;
        command_opcode = o;
      })
    ]

pub record NumOfCompletedPkt : Type 0 where
  pub connection_handle : ℕ
  pub num_of_completed_pkts : ℕ

-- The loop of NumberOfCompletedPktsEP.Unmarshal; `& 0xfff` keeps twelve bits of the handle.
unfoldable pub completed_pkts : ℕ → List ℕ → List NumOfCompletedPkt
completed_pkts zero b = []
completed_pkts (suc n) b =
    let (handle, b1) = read_uint16 b in
    let (count, b2) = read_uint16 b1 in
    record { connection_handle = or_zero handle % 4096; num_of_completed_pkts = or_zero count }
    ∷ completed_pkts n b2

-- `b[0]` panics on an empty event.
unfoldable pub number_of_completed_pkts : List ℕ → Run (List NumOfCompletedPkt)
number_of_completed_pkts [] = panic
number_of_completed_pkts (n ∷ b) = ok (completed_pkts n b)

pub record LeConnectionComplete : Type 0 where
  pub subevent_code : ℕ
  pub status : ℕ
  pub connection_handle : ℕ
  pub role : ℕ
  pub peer_address_type : ℕ
  pub peer_address : Address
  pub conn_interval : ℕ
  pub conn_latency : ℕ
  pub supervision_timeout : ℕ
  pub master_clock_accuracy : ℕ

-- At least 18 bytes. The clock accuracy is read from the last byte of the timeout, as in the code.
unfoldable pub le_connection_complete : List ℕ → Option LeConnectionComplete
le_connection_complete
      (sub ∷ st ∷ h0 ∷ h1 ∷ role ∷ pt ∷ a ∷ b ∷ c ∷ d ∷ e ∷ f ∷ i0 ∷ i1 ∷ l0 ∷ l1 ∷ t0 ∷ t1
        ∷ rest) =
    some (record {
      subevent_code = sub;
      status = st;
      connection_handle = h0 + h1 * 256;
      role = role;
      peer_address_type = pt;
      peer_address = record { a0 = f; a1 = e; a2 = d; a3 = c; a4 = b; a5 = a };
      conn_interval = i0 + i1 * 256;
      conn_latency = l0 + l1 * 256;
      supervision_timeout = t0 + t1 * 256;
      master_clock_accuracy = t1;
    })
le_connection_complete b = none

pub record LeAdvertisingReport : Type 0 where
  pub event_type : List ℕ
  pub address_type : List ℕ
  pub address : List Address
  pub lengths : List ℕ
  pub content : List (List ℕ)
  pub rssi : List ℕ

-- The loops of LEAdvertisingReportEP.Unmarshal: what they read, and what is left.
unfoldable pub each_uint8 : ℕ → List ℕ → Run (List ℕ × List ℕ)
each_uint8 zero b = ok ([], b)
each_uint8 (suc n) [] = panic
each_uint8 (suc n) (x ∷ b) = do (xs, r) ← each_uint8 n b; ok (x ∷ xs, r)

unfoldable pub each_mac : ℕ → List ℕ → Run (List Address × List ℕ)
each_mac zero b = ok ([], b)
each_mac (suc n) b = do m ← from_option (mac b); (ms, r) ← each_mac n (drop 6 b); ok (m ∷ ms, r)

unfoldable pub each_content : List ℕ → List ℕ → Run (List (List ℕ) × List ℕ)
each_content [] b = ok ([], b)
each_content (l ∷ ls) b =
    if ltb (length b) l
    then panic
    else do (cs, r) ← each_content ls (drop l b); ok (take l b ∷ cs, r)

abbrev pub sum_lengths : List ℕ → ℕ
sum_lengths [] = 0
sum_lengths (l ∷ ls) = l + sum_lengths ls

-- Behind the two bytes of the head. `none` is an error. The strength of a signal stays a byte.
unfoldable pub read_reports : ℕ → List ℕ → Run (Option LeAdvertisingReport)
read_reports n b = if ltb (length b) ((1 + 1 + 6 + 1) * n) then ok none else do
  (types, b1) ← each_uint8 n b
  (address_types, b2) ← each_uint8 n b1
  (addresses, b3) ← each_mac n b2
  (ls, b4) ← each_uint8 n b3
  if ltb (length b4) (sum_lengths ls + n) then ok none else do
    (cs, b5) ← each_content ls b4
    (rs, b6) ← each_uint8 n b5
    ok (
        some (record {
          event_type = types;
          address_type = address_types;
          address = addresses;
          lengths = ls;
          content = cs;
          rssi = rs;
        }))

unfoldable pub le_advertising_report : List ℕ → Run (Option LeAdvertisingReport)
le_advertising_report [] = ok none
le_advertising_report (sub ∷ []) = ok none
le_advertising_report (sub ∷ n ∷ b) = read_reports n b

pub record LeLtkRequest : Type 0 where
  pub subevent_code : ℕ
  pub connection_handle : ℕ
  pub random_number : ℕ
  pub encryption_diversifier : ℕ

-- binary.Read of a whole struct of 13 bytes.
unfoldable pub le_ltk_request : List ℕ → Option LeLtkRequest
le_ltk_request b =
    if ltb (length b) 13
    then none
    else some (record {
      subevent_code = number (take 1 b);
      connection_handle = number (take 2 (drop 1 b));
      random_number = number (take 8 (drop 3 b));
      encryption_diversifier = number (take 2 (drop 11 b));
    })
