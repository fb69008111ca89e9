-- ===== src/Hci/State/Handled.antt =====
-- linux/hci.go: what holds of every handler holds of each step that handlers take. A property of the
-- state before, the state after and the effects that has the laws below is one of every handler.
pub mod Loop
use gatt.Prelude.{
  ℕ, zero, suc, ◌+◌, ◌-◌, ◌≤◌, ◌≡◌, refl, List, [], ◌∷◌, ◌++◌, map, Bool, true, false, Option, none,
  some, Run, ok, panic, arith, length, take, leb, leb→le, ltb, ◌==◌, ◌||◌, ◌&&◌, if◌then◌else◌,
  Bool-cases, inl, inr,
}
use gatt.Hci.L2cap.{write, hci_buf_size}
use gatt.Hci.Command.{CmdParam}
use gatt.Hci.Event.{
  number_of_completed_pkts, LeConnectionComplete, LeAdvertisingReport, le_advertising_report,
  le_ltk_request,
}
use gatt.Hci.Event.Code
use gatt.Hci.Sent.{CmdEvent, check_resp}
use gatt.Hci.State.{
  PlatData, Hci, Effect, command, acl, answered, accept_master, accept_slave, advertisement, Step,
  Ended, returned, failed, blocked, panicked, done, emit, then_do, buf_cap, lookup, find,
  conn_write, send_and_check_resp, enable_advertising,
}
use gatt.Hci.State.Handlers.{
  accept_peer, accept, update_parameters, recovered, completed_total,
  handle_number_of_completed_pkts, scan_response, advertised, report_at, handle_report,
  handle_reports, handle_advertisement, handle_ltk_request,
}

pub record Laws {ℓ} (R : Hci → Hci → List Effect → Type ℓ) : Type ℓ where
  pub stays : (h : Hci) → R h h []
  pub follows :
      (h h' h'' : Hci) (es fs : List Effect) → R h h' es → R h' h'' fs → R h h'' (es ++ fs)
  pub commands : (h : Hci) (c : CmdParam) → R h h (command c ∷ [])
  pub answers : (h : Hci) (e : CmdEvent) → R h h (answered e ∷ [])
  pub masters : (h : Hci) (pd : PlatData) → R h h (accept_master pd ∷ [])
  pub tokens :
      (h : Hci) (n : ℕ) (ps : List (List ℕ))
      → (h.buf_cnt ≤ buf_cap → n ≤ buf_cap)
      → R h (record h { buf_cnt = n }) (map acl ps)
  pub locks : (h : Hci) → h.plist_locked ≡ false → R h (record h { plist_locked = true }) []
  pub peers :
      (h : Hci) (p : List (_ × PlatData)) (pd : PlatData)
      → h.plist_locked ≡ false
      → R h (record h { plist = p }) []
        × R h (record h { plist = p }) (accept_slave pd ∷ [])
        × R h (record h { plist = p }) (advertisement pd ∷ [])

pub record Holds {ℓ} (R : Hci → Hci → List Effect → Type ℓ) (h : Hci) (s : Step) : Type ℓ where
  pub holds : R h s.hci s.effects

module _ {ℓ} (R : Hci → Hci → List Effect → Type ℓ) (laws : Laws R) where
  pub if-Holds :
      (h : Hci) (b : Bool) (s t : Step)
      → (b ≡ true → Holds R h s)
      → (b ≡ false → Holds R h t)
      → Holds R h (if b then s else t)
  if-Holds h true s t f g = f refl
  if-Holds h false s t f g = g refl

  pub option-Holds {κ} :
      {A : Type κ} (h : Hci) (o : Option A) (s : Step) (f : A → Step)
      → Holds R h s
      → ((a : A) → Holds R h (f a))
      → Holds R h (elim o [ none ↦ s | some a ↦ f a ])
  option-Holds h none s f a b = a
  option-Holds h (some x) s f a b = b x

  pub run-Holds {κ} :
      {A : Type κ} (h : Hci) (r : Run A) (s : Step) (f : A → Step)
      → Holds R h s
      → ((a : A) → Holds R h (f a))
      → Holds R h (elim r [ panic ↦ s | ok a ↦ f a ])
  run-Holds h (ok x) s f a b = b x
  run-Holds h panic s f a b = a

  pub stay : (h : Hci) (e : Ended) → Holds R h (done h e)
  stay h e = record { holds = laws.stays h }

  continued-Holds :
      (h h' : Hci) (es : List Effect) (e : Ended) (f : Hci → Step)
      → R h h' es
      → Holds R h' (f h')
      → Holds R h (then_do (record { hci = h'; effects = es; ended = e }) f)
  unfolding then_do
  continued-Holds h h' es returned f a b = record {
    holds = laws.follows h h' (f h').hci es (f h').effects a b.holds;
  }
  continued-Holds h h' es failed f a b = record {
    holds = laws.follows h h' (f h').hci es (f h').effects a b.holds;
  }
  continued-Holds h h' es blocked f a b = record { holds = a }
  continued-Holds h h' es panicked f a b = record { holds = a }

  pub then_do-Holds :
      (h : Hci) (s : Step) (f : Hci → Step)
      → Holds R h s
      → ((h' : Hci) → Holds R h' (f h'))
      → Holds R h (then_do s f)
  then_do-Holds h s f a b = continued-Holds h s.hci s.effects s.ended f a.holds (b s.hci)

  ended-Holds :
      (h h' : Hci) (es : List Effect) (e : Ended)
      → R h h' es
      → Holds R h (recovered (record { hci = h'; effects = es; ended = e }))
  ended-Holds h h' es returned a = record { holds = a }
  ended-Holds h h' es failed a = record { holds = a }
  ended-Holds h h' es blocked a = record { holds = a }
  ended-Holds h h' es panicked a = record { holds = a }

  pub recovered-Holds : (h : Hci) (s : Step) → Holds R h s → Holds R h (recovered s)
  recovered-Holds h s a = ended-Holds h s.hci s.effects s.ended a.holds

  conn_write-Holds : (h : Hci) (attr cid : ℕ) (b : List ℕ) → Holds R h (conn_write h attr cid b)
  unfolding conn_write
  conn_write-Holds h attr cid b =
      let packets = write hci_buf_size attr cid b in
      let room = buf_cap - h.buf_cnt in
      if-Holds h (leb (length packets) room) _ _
        (λ fits. record {
          holds =
              laws.tokens h (h.buf_cnt + length packets) packets
                (λ k. let n = leb→le (length packets) room fits in omega arith);
        })
        (λ full. record {
          holds = laws.tokens h (h.buf_cnt + room) (take room packets) (λ k. omega arith);
        })

  send_and_check_resp-Holds :
      (controller : CmdParam → List ℕ) (h : Hci) (c : CmdParam) (exp : List ℕ)
      → Holds R h (send_and_check_resp controller h c exp)
  unfolding send_and_check_resp
  send_and_check_resp-Holds controller h c exp =
      run-Holds h (check_resp exp (controller c)) _ _ (record { holds = laws.commands h c })
        (λ good. record { holds = laws.commands h c })

  pub enable_advertising-Holds :
      (controller : CmdParam → List ℕ) (h : Hci) (en : Bool)
      → Holds R h (enable_advertising controller h en)
  unfolding enable_advertising
  enable_advertising-Holds controller h en =
      if-Holds h (en && h.adv && (length h.conns == h.max_conn)) _ _ (λ a. stay h _)
        (λ b. send_and_check_resp-Holds controller h _ _)

  pub update_parameters-Holds :
      (h : Hci) (ep : LeConnectionComplete) → Holds R h (update_parameters h ep)
  unfolding update_parameters
  update_parameters-Holds h ep =
      if-Holds h (ltb 0 ep.conn_latency || ltb 0x18 ep.conn_interval) _ _
        (λ a. conn_write-Holds h _ _ _) (λ b. stay h _)

  accept_peer-Holds : (h : Hci) (a : _) (hh : ℕ) → Holds R h (accept_peer h a hh)
  unfolding accept_peer
  accept_peer-Holds h a hh =
      if-Holds h h.plist_locked _ _ (λ locked. stay h _)
        (λ free.
          option-Holds h (find h.plist a) _ _ (record { holds = laws.locks h free })
            (λ pd.
              if-Holds h h.has_accept_slave_handler _ _
                (λ b. record { holds = (laws.peers h _ _ free).1 })
                (λ b. record { holds = (laws.peers h _ pd free).0 })))

  pub accept-Holds : (h : Hci) (ep : LeConnectionComplete) → Holds R h (accept h ep)
  unfolding accept
  accept-Holds h ep =
      if-Holds h (ep.role == 1) _ _
        (λ a.
          if-Holds h h.has_accept_master_handler _ _ (λ b. record { holds = laws.masters h _ })
            (λ b. stay h _))
        (λ a. accept_peer-Holds h _ _)

  pub handle_number_of_completed_pkts-Holds :
      (h : Hci) (b : List ℕ) → Holds R h (handle_number_of_completed_pkts h b)
  unfolding handle_number_of_completed_pkts
  handle_number_of_completed_pkts-Holds h b =
      run-Holds h (number_of_completed_pkts b) _ _ (stay h _) (λ rs.
        let taken = laws.tokens h (h.buf_cnt - completed_total rs) [] (λ k. omega arith) in
        if-Holds h (leb (completed_total rs) h.buf_cnt) _ _ (λ c. record { holds = taken })
          (λ c. record { holds = taken }))

  scan_response-Holds : (h : Hci) (a : _) (content : List ℕ) → Holds R h (scan_response h a content)
  unfolding scan_response
  scan_response-Holds h a content =
      if-Holds h h.plist_locked _ _ (λ locked. stay h _)
        (λ free.
          option-Holds h (find h.plist a) _ _ (stay h _)
            (λ pd. record { holds = (laws.peers h _ _ free).2 }))

  advertised-Holds : (h : Hci) (pd : PlatData) → Holds R h (advertised h pd)
  unfolding advertised
  advertised-Holds h pd =
      if-Holds h h.plist_locked _ _ (λ locked. stay h _)
        (λ free. record { holds = (laws.peers h _ pd free).2 })

  handle_report-Holds : (h : Hci) (r : _) → Holds R h (handle_report h r)
  unfolding handle_report
  handle_report-Holds h r =
      if-Holds h (r.event_type == Code.scan_resp) _ _ (λ a. scan_response-Holds h _ _)
        (λ b. advertised-Holds h _)

  handle_reports-Holds :
      (h : Hci) (ep : LeAdvertisingReport) (n i : ℕ) → Holds R h (handle_reports h ep n i)
  unfolding handle_reports
  handle_reports-Holds h ep zero i = stay h _
  handle_reports-Holds h ep (suc n) i = run-Holds h (report_at ep i) _ _ (stay h _) (λ r.
      then_do-Holds h (handle_report h r) _ (handle_report-Holds h r)
        (λ h'. handle_reports-Holds h' ep n (suc i)))

  pub handle_advertisement-Holds : (h : Hci) (b : List ℕ) → Holds R h (handle_advertisement h b)
  unfolding handle_advertisement
  handle_advertisement-Holds h b =
      if-Holds h h.has_advertisement_handler _ _
        (λ a.
          run-Holds h (le_advertising_report b) _ _ (stay h _)
            (λ o. option-Holds h o _ _ (stay h _) (λ ep. handle_reports-Holds h ep _ _)))
        (λ a. stay h _)

  pub handle_ltk_request-Holds : (h : Hci) (b : List ℕ) → Holds R h (handle_ltk_request h b)
  unfolding handle_ltk_request
  handle_ltk_request-Holds h b = option-Holds h (le_ltk_request b) _ _ (stay h _) (λ ep.
      option-Holds h (lookup h.conns ep.connection_handle) _ _ (stay h _)
        (λ buf. record { holds = laws.commands h _ }))
