-- ===== src/Hci/State.antt =====
-- linux/hci.go: the state of HCI, and what its methods do with the device, the commands and the
-- application. A command waits for its response; the other waits are on a mutex or on bufCnt.
pub mod Handlers
pub mod MainLoop
pub mod Handled
pub mod Lockout
pub mod Demux
pub mod Reset
use gatt.Prelude.{
  ℕ, zero, suc, ◌+◌, ◌-◌, List, [], ◌∷◌, ◌++◌, map, Bool, true, false, Option, none, some, not,
  ◌&&◌, ◌||◌, Run, ok, panic, length, take, ltb, leb, ◌==◌, bytes_equal, if◌then◌else◌,
}
use gatt.Hci.Bytes.{Address, put_mac}
use gatt.Hci.L2cap.{write, hci_buf_size}
use gatt.Hci.Command.{CmdParam}
use gatt.Hci.Command.LeAdvertising.{le_set_advertise_enable}
use gatt.Hci.Command.LeConnection.{
  LeSetScanEnable, le_set_scan_enable, LeCreateConn, le_create_conn,
}
use gatt.Hci.Command.LeControl.{le_ltk_neg_reply}
use gatt.Hci.Sent.{CmdEvent, check_resp}

-- The connection is told by its handle. The name, which the handlers of the application set, is left
-- out.
pub record PlatData : Type 0 where
  pub address_type : ℕ
  pub address : Address
  pub content : List ℕ
  pub connectable : Bool
  pub rssi : ℕ
  pub conn : Option ℕ

-- `conns` has the reassembly buffer of each connection. The three handlers are there or nil.
-- `buf_cnt` is the number of tokens in the channel bufCnt.
pub record Hci : Type 0 where
  pub has_accept_master_handler : Bool
  pub has_accept_slave_handler : Bool
  pub has_advertisement_handler : Bool
  pub plist : List (Address × PlatData)
  pub plist_locked : Bool
  pub buf_cnt : ℕ
  pub max_conn : ℕ
  pub conns : List (ℕ × List ℕ)
  pub adv : Bool

-- The capacity of bufCnt.
abbrev pub buf_cap : ℕ
buf_cap = 14

-- NewHCI, before any handler is set.
abbrev pub new_hci : ℕ → Hci
new_hci max_conn = record {
  has_accept_master_handler = false;
  has_accept_slave_handler = false;
  has_advertisement_handler = false;
  plist = [];
  plist_locked = false;
  buf_cnt = 0;
  max_conn = max_conn;
  conns = [];
  adv = false;
}

-- A command to the controller, a packet of data to it, a PDU of a connection for its reader, an event
-- for the waiting commands, and the calls of the three handlers.
pub data Effect : Type 0 where
  command : CmdParam → Effect
  acl : List ℕ → Effect
  delivered : ℕ → List ℕ → Effect
  answered : CmdEvent → Effect
  accept_master : PlatData → Effect
  accept_slave : PlatData → Effect
  advertisement : PlatData → Effect

-- `failed` is the return of an error. A method that is `blocked` waits for ever, or until another
-- gives it what it waits for; what it does then is not modelled.
pub data Ended : Type 0 where
  returned : Ended
  failed : Ended
  blocked : Ended
  panicked : Ended

pub record Step : Type 0 where
  pub hci : Hci
  pub effects : List Effect
  pub ended : Ended

abbrev pub done : Hci → Ended → Step
done h e = record { hci = h; effects = []; ended = e }

abbrev pub emit : Hci → Effect → Step
emit h e = record { hci = h; effects = e ∷ []; ended = returned }

abbrev pub after : Step → Step → Step
after s t = record t { effects = s.effects ++ t.effects }

-- What follows a call whose error is ignored, and one whose error is passed on.
unfoldable pub then_do : Step → (Hci → Step) → Step
then_do s k = elim s.ended [
  | returned ↦ after s (k s.hci)
  | failed ↦ after s (k s.hci)
  | blocked ↦ s
  | panicked ↦ s
]

unfoldable pub if_ok : Step → (Hci → Step) → Step
if_ok s k = elim s.ended [ returned ↦ after s (k s.hci) | failed ↦ s | blocked ↦ s | panicked ↦ s ]

abbrev pub lookup : List (ℕ × List ℕ) → ℕ → Option (List ℕ)
lookup [] k = none
lookup (c ∷ cs) k = if c.0 == k then some c.1 else lookup cs k

abbrev pub delete : List (ℕ × List ℕ) → ℕ → List (ℕ × List ℕ)
delete [] k = []
delete (c ∷ cs) k = if c.0 == k then delete cs k else c ∷ delete cs k

abbrev pub insert : List (ℕ × List ℕ) → ℕ → List ℕ → List (ℕ × List ℕ)
insert cs k buf = (k, buf) ∷ delete cs k

abbrev pub same_address : Address → Address → Bool
same_address a b = bytes_equal (put_mac a) (put_mac b)

abbrev pub find : List (Address × PlatData) → Address → Option PlatData
find [] a = none
find (p ∷ ps) a = if same_address p.0 a then some p.1 else find ps a

abbrev pub put_peer : List (Address × PlatData) → Address → PlatData → List (Address × PlatData)
put_peer [] a pd = (a, pd) ∷ []
put_peer (p ∷ ps) a pd = if same_address p.0 a then (a, pd) ∷ ps else p ∷ put_peer ps a pd

abbrev pub btoi : Bool → ℕ
btoi b = if b then 1 else 0

-- conn.write, which waits where the controller has no buffer left.
unfoldable pub conn_write : Hci → ℕ → ℕ → List ℕ → Step
conn_write h attr cid b =
    let packets = write hci_buf_size attr cid b in
    let room = buf_cap - h.buf_cnt in
    if leb (length packets) room
    then record {
      hci = record h { buf_cnt = h.buf_cnt + length packets };
      effects = map acl packets;
      ended = returned;
    }
    else record {
      hci = record h { buf_cnt = h.buf_cnt + room };
      effects = map acl (take room packets);
      ended = blocked;
    }

abbrev pub update_connection : Hci → ℕ → Step
update_connection h attr =
    conn_write h attr 0x05
      (0x12 ∷ 0x02 ∷ 0x08 ∷ 0x00 ∷ 0x08 ∷ 0x00 ∷ 0x18 ∷ 0x00 ∷ 0x00 ∷ 0x00 ∷ 0xC8 ∷ 0x00 ∷ [])

-- The controller: the bytes that cmd.Send returns for a command, none for a CommandStatus.
module _ (controller : CmdParam → List ℕ) where
  -- cmd.SendAndCheckResp
  unfoldable pub send_and_check_resp : Hci → CmdParam → List ℕ → Step
  send_and_check_resp h c exp = elim (check_resp exp (controller c)) [
    | panic ↦ record { hci = h; effects = command c ∷ []; ended = panicked }
    | ok good ↦ record {
      hci = h;
      effects = command c ∷ [];
      ended = if good then returned else failed;
    }
  ]

  unfoldable pub enable_advertising : Hci → Bool → Step
  enable_advertising h en =
      if en && h.adv && (length h.conns == h.max_conn)
      then done h returned
      else send_and_check_resp h (le_set_advertise_enable (btoi en)) (0x00 ∷ [])

  -- SetAdvertiseEnable; `enable_advertising` is setAdvertiseEnable.
  unfoldable pub set_advertise_enable : Hci → Bool → Step
  set_advertise_enable h en = enable_advertising (record h { adv = en }) en

  -- `if h.adv`
  unfoldable pub restore_advertising : Hci → Step
  restore_advertising h = if h.adv then enable_advertising h true else done h returned

  -- The error is that of the command in the middle.
  unfoldable pub send_cmd_with_adv_off : Hci → CmdParam → Step
  send_cmd_with_adv_off h c = then_do (enable_advertising h false) (λ h1.
      let s = send_and_check_resp h1 c [] in
      then_do s (λ h2. then_do (restore_advertising h2) (λ h3. done h3 s.ended)))

  unfoldable pub set_scan_enable : Hci → Bool → Bool → Step
  set_scan_enable h en dup =
      send_and_check_resp h
        (le_set_scan_enable
          (record { le_scan_enable = btoi en; filter_duplicates = btoi (not dup) }))
        (0x00 ∷ [])

-- The response of LECreateConn is not looked at.
abbrev pub connect : Hci → PlatData → Step
connect h pd = emit h (
    command (
      le_create_conn (record {
        le_scan_interval = 0x0004;
        le_scan_window = 0x0004;
        initiator_filter_policy = 0x00;
        peer_address_type = pd.address_type;
        peer_address = pd.address;
        own_address_type = 0x00;
        conn_interval_min = 0x0006;
        conn_interval_max = 0x0006;
        conn_latency = 0x0000;
        supervision_timeout = 0x0048;
        minimum_ce_length = 0x0000;
        maximum_ce_length = 0x0000;
      })))
