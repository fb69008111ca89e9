-- ===== src/Hci/State/Handlers.antt =====
-- linux/hci.go: what HCI does with the packets of the controller. A handler that runs in a goroutine of
-- its own is run where it is started, to its end.
use gatt.Prelude.{
  ℕ, zero, suc, ◌+◌, ◌-◌, List, [], ◌∷◌, ◌++◌, map, Bool, true, false, none, some, ◌||◌, Run, ok,
  panic, ◌>>=◌, length, ltb, leb, ◌==◌, if◌then◌else◌, index, from_option, get_elem?,
}
use gatt.Hci.Bytes.{Address}
use gatt.Hci.L2cap.{unmarshal, receive_acl}
use gatt.Hci.Command.LeControl.{le_ltk_neg_reply}
use gatt.Hci.Event.{
  NumOfCompletedPkt, number_of_completed_pkts, LeConnectionComplete, LeAdvertisingReport,
  le_advertising_report, le_ltk_request,
}
use gatt.Hci.Event.Code
use gatt.Hci.State.{
  PlatData, Hci, Effect, command, delivered, accept_master, accept_slave, advertisement, Step,
  returned, failed, blocked, panicked, done, emit, then_do, lookup, insert, find, put_peer,
  update_connection,
}

abbrev call : Bool → Hci → Effect → Step
call has h e = if has then emit h e else done h panicked

-- The end of handleConnection, for a peer that HCI has connected to. The mutex of `plist` is unlocked
-- only where the peer is known.
unfoldable pub accept_peer : Hci → Address → ℕ → Step
accept_peer h a hh = if h.plist_locked then done h blocked else elim (find h.plist a) [
  | none ↦ done (record h { plist_locked = true }) returned
  | some pd ↦
      let pd' = record pd { conn = some hh } in
      call h.has_accept_slave_handler (record h { plist = put_peer h.plist a pd' })
        (accept_slave pd')
]

-- The PlatData of a remote central.
abbrev pub master_data : LeConnectionComplete → PlatData
master_data ep = record {
  address_type = 0;
  address = ep.peer_address;
  content = [];
  connectable = false;
  rssi = 0;
  conn = some ep.connection_handle;
}

unfoldable pub accept : Hci → LeConnectionComplete → Step
accept h ep =
    if ep.role == 1
    then call h.has_accept_master_handler h (accept_master (master_data ep))
    else accept_peer h ep.peer_address ep.connection_handle

unfoldable pub update_parameters : Hci → LeConnectionComplete → Step
update_parameters h ep =
    if ltb 0 ep.conn_latency || ltb 0x18 ep.conn_interval
    then update_connection h ep.connection_handle
    else done h returned

-- The deferred recover.
abbrev pub recovered : Step → Step
recovered s = elim s.ended [
  | returned ↦ s
  | failed ↦ s
  | blocked ↦ s
  | panicked ↦ record s { ended = returned }
]

-- The loop of handleNumberOfCompletedPkts: it takes a token for each packet, and waits for more where
-- there is none.
abbrev pub completed_total : List NumOfCompletedPkt → ℕ
completed_total [] = 0
completed_total (r ∷ rs) = r.num_of_completed_pkts + completed_total rs

unfoldable pub handle_number_of_completed_pkts : Hci → List ℕ → Step
handle_number_of_completed_pkts h b = elim (number_of_completed_pkts b) [
  | panic ↦ done h panicked
  | ok rs ↦
      let n = completed_total rs in
      let h' = record h { buf_cnt = h.buf_cnt - n } in
      if leb n h.buf_cnt then done h' returned else done h' blocked
]

-- One report of handleAdvertisement: a scan response is added to the data of its peer.
unfoldable pub scan_response : Hci → Address → List ℕ → Step
scan_response h a content = if h.plist_locked then done h blocked else elim (find h.plist a) [
  | none ↦ done h returned
  | some pd ↦
      let pd' = record pd { content = pd.content ++ content } in
      emit (record h { plist = put_peer h.plist a pd' }) (advertisement pd')
]

unfoldable pub advertised : Hci → PlatData → Step
advertised h pd =
    if h.plist_locked
    then done h blocked
    else emit (record h { plist = put_peer h.plist pd.address pd }) (advertisement pd)

pub record Report : Type 0 where
  pub event_type : ℕ
  pub address_type : ℕ
  pub address : Address
  pub content : List ℕ
  pub rssi : ℕ

-- The elements that the loop takes for `i`.
unfoldable pub report_at : LeAdvertisingReport → ℕ → Run Report
report_at ep i = do
  address ← from_option (get_elem? ep.address i)
  event_type ← index ep.event_type i
  content ← from_option (get_elem? ep.content i)
  address_type ← index ep.address_type i
  rssi ← index ep.rssi i
  ok (record {
    event_type = event_type;
    address_type = address_type;
    address = address;
    content = content;
    rssi = rssi;
  })

unfoldable pub handle_report : Hci → Report → Step
handle_report h r =
    if r.event_type == Code.scan_resp
    then scan_response h r.address r.content
    else advertised h (record {
      address_type = r.address_type;
      address = r.address;
      content = r.content;
      connectable = (r.event_type == Code.adv_ind) || (r.event_type == Code.adv_direct_ind);
      rssi = r.rssi;
      conn = none;
    })

-- The loop, from `i` on, with `n` reports left.
unfoldable pub handle_reports : Hci → LeAdvertisingReport → ℕ → ℕ → Step
handle_reports h ep zero i = done h returned
handle_reports h ep (suc n) i = elim (report_at ep i) [
  | panic ↦ done h panicked
  | ok r ↦ then_do (handle_report h r) (λ h'. handle_reports h' ep n (suc i))
]

unfoldable pub handle_advertisement : Hci → List ℕ → Step
handle_advertisement h b =
    if h.has_advertisement_handler
    then elim (le_advertising_report b) [
      | panic ↦ done h panicked
      | ok o ↦ elim o [
        | none ↦ done h returned
        | some ep ↦ handle_reports h ep (length ep.event_type) 0
      ]
    ]
    else done h returned

-- A packet for a handle that is not connected is dropped.
unfoldable pub handle_l2cap : Hci → List ℕ → Step
handle_l2cap h b = elim (unmarshal b) [
  | none ↦ done h failed
  | some a ↦ elim (lookup h.conns a.attr) [
    | none ↦ done h returned
    | some buf ↦
        let r = receive_acl buf a in
        record {
          hci = record h { conns = insert h.conns a.attr r.buf };
          effects = map (delivered a.attr) r.pdus;
          ended = returned;
        }
  ]
]

-- The response to LELTKNegReply is not looked at.
unfoldable pub handle_ltk_request : Hci → List ℕ → Step
handle_ltk_request h b = elim (le_ltk_request b) [
  | none ↦ done h returned
  | some ep ↦ elim (lookup h.conns ep.connection_handle) [
    | none ↦ done h returned
    | some buf ↦ emit h (command (le_ltk_neg_reply ep.connection_handle))
  ]
]
