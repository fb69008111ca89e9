-- ===== src/Hci/State/Handled/Loop.antt =====
-- linux/hci.go: a property of every handler, and of a change of the connections, is one of mainLoop.
use gatt.Prelude.{ℕ, List, [], ◌∷◌, map, true, length, drop, ltb, ◌==◌}
use gatt.Hci.L2cap.{unmarshal}
use gatt.Hci.Command.{CmdParam}
use gatt.Hci.Event.{
  header_code, disconnection_complete, command_complete, command_status, LeConnectionComplete,
  le_connection_complete,
}
use gatt.Hci.Event.Code
use gatt.Hci.State.{
  Hci, Effect, delivered, Step, Ended, returned, failed, blocked, panicked, lookup, delete, insert,
  enable_advertising,
}
use gatt.Hci.State.Handlers.{update_parameters, handle_l2cap}
use gatt.Hci.State.MainLoop.{
  connected, handle_connection, handle_disconnection_complete, handle_le_meta, dispatch_code,
  dispatch, handle_packet, main_loop, go_on,
}
use gatt.Hci.State.Handled.{
  Laws, Holds, if-Holds, option-Holds, then_do-Holds, recovered-Holds, stay,
  enable_advertising-Holds, update_parameters-Holds, accept-Holds,
  handle_number_of_completed_pkts-Holds, handle_advertisement-Holds, handle_ltk_request-Holds,
}

module _ {ℓ} (R : Hci → Hci → List Effect → Type ℓ) (laws : Laws R)
    (changes : (h : Hci) (cs : List (ℕ × List ℕ)) (k : ℕ) (pdus : List (List ℕ))
      → R h (record h { conns = cs }) (map (delivered k) pdus))
    (controller : CmdParam → List ℕ) where
  from-conns :
      (h : Hci) (cs : List (ℕ × List ℕ)) (s : Step)
      → Holds R (record h { conns = cs }) s
      → Holds R h s
  from-conns h cs s a = record {
    holds = laws.follows h (record h { conns = cs }) s.hci [] s.effects (changes h cs 0 []) a.holds;
  }

  connected-Holds : (h : Hci) (ep : LeConnectionComplete) → Holds R h (connected controller h ep)
  unfolding connected
  connected-Holds h ep =
      let cs = insert h.conns ep.connection_handle [] in
      let h1 = record h { conns = cs } in
      from-conns h cs _ (
        then_do-Holds R laws h1 (enable_advertising controller h1 true) _
          (enable_advertising-Holds R laws controller h1 true)
          (λ h2.
            then_do-Holds R laws h2 (update_parameters h2 ep) _
              (update_parameters-Holds R laws h2 ep) (λ h3. accept-Holds R laws h3 ep)))

  handle_disconnection_complete-Holds :
      (h : Hci) (b : List ℕ) → Holds R h (handle_disconnection_complete controller h b)
  unfolding handle_disconnection_complete
  handle_disconnection_complete-Holds h b =
      option-Holds R laws h (disconnection_complete b) _ _ (stay R laws h _) (λ ep.
        option-Holds R laws h (lookup h.conns ep.connection_handle) _ _ (stay R laws h _) (λ buf.
          let cs = delete h.conns ep.connection_handle in
          let h1 = record h { conns = cs } in
          from-conns h cs _ (
            then_do-Holds R laws h1 (enable_advertising controller h1 true) _
              (enable_advertising-Holds R laws controller h1 true) (λ h2. stay R laws h2 _))))

  handle_connection-Holds : (h : Hci) (b : List ℕ) → Holds R h (handle_connection controller h b)
  unfolding handle_connection
  handle_connection-Holds h b =
      option-Holds R laws h (le_connection_complete b) _ _ (stay R laws h _)
        (λ ep. recovered-Holds R laws h (connected controller h ep) (connected-Holds h ep))

  handle_le_meta-Holds : (h : Hci) (b : List ℕ) → Holds R h (handle_le_meta controller h b)
  unfolding handle_le_meta
  handle_le_meta-Holds h [] = stay R laws h _
  handle_le_meta-Holds h (code ∷ b) =
      if-Holds R laws h (code == Code.le_connection_complete) _ _
        (λ a. handle_connection-Holds h (code ∷ b))
        (λ a.
          if-Holds R laws h (code == Code.le_connection_update_complete) _ _ (λ a. stay R laws h _)
            (λ a.
              if-Holds R laws h (code == Code.le_advertising_report) _ _
                (λ a. handle_advertisement-Holds R laws h (code ∷ b))
                (λ a.
                  if-Holds R laws h (code == Code.le_ltk_request) _ _
                    (λ a. handle_ltk_request-Holds R laws h (code ∷ b)) (λ a. stay R laws h _))))

  dispatch_code-Holds :
      (h : Hci) (code : ℕ) (b : List ℕ) → Holds R h (dispatch_code controller h code b)
  unfolding dispatch_code
  dispatch_code-Holds h code b =
      if-Holds R laws h (code == Code.le_meta) _ _ (λ a. handle_le_meta-Holds h b)
        (λ a.
          if-Holds R laws h (code == Code.disconnection_complete) _ _
            (λ a. handle_disconnection_complete-Holds h b)
            (λ a.
              if-Holds R laws h (code == Code.number_of_completed_pkts) _ _
                (λ a. handle_number_of_completed_pkts-Holds R laws h b)
                (λ a.
                  if-Holds R laws h (code == Code.command_complete) _ _
                    (λ a.
                      option-Holds R laws h (command_complete b) _ _ (stay R laws h _)
                        (λ e. record { holds = laws.answers h _ }))
                    (λ a.
                      if-Holds R laws h (code == Code.command_status) _ _
                        (λ a.
                          option-Holds R laws h (command_status b) _ _ (stay R laws h _)
                            (λ e. record { holds = laws.answers h _ }))
                        (λ a. stay R laws h _)))))

  dispatch-Holds : (h : Hci) (b : List ℕ) → Holds R h (dispatch controller h b)
  unfolding dispatch
  dispatch-Holds h b =
      option-Holds R laws h (header_code b) _ _ (stay R laws h _)
        (λ code. dispatch_code-Holds h code (drop 2 b))

  handle_l2cap-Holds : (h : Hci) (b : List ℕ) → Holds R h (handle_l2cap h b)
  unfolding handle_l2cap
  handle_l2cap-Holds h b = option-Holds R laws h (unmarshal b) _ _ (stay R laws h _) (λ a.
      option-Holds R laws h (lookup h.conns a.attr) _ _ (stay R laws h _)
        (λ buf. record { holds = changes h _ a.attr _ }))

  pub handle_packet-Holds : (h : Hci) (p : List ℕ) → Holds R h (handle_packet controller h p)
  unfolding handle_packet
  handle_packet-Holds h [] = stay R laws h _
  handle_packet-Holds h (t ∷ b) =
      if-Holds R laws h (t == Code.packet_command) _ _
        (λ a.
          if-Holds R laws h (ltb (length b) 2) _ _ (λ a. stay R laws h _) (λ a. stay R laws h _))
        (λ a.
          if-Holds R laws h (t == Code.packet_acl_data) _ _ (λ a. handle_l2cap-Holds h b)
            (λ a.
              if-Holds R laws h (t == Code.packet_sco_data) _ _ (λ a. stay R laws h _)
                (λ a.
                  if-Holds R laws h (t == Code.packet_event) _ _ (λ a. dispatch-Holds h b)
                    (λ a.
                      if-Holds R laws h (t == Code.packet_vendor) _ _ (λ a. stay R laws h _)
                        (λ a. stay R laws h _)))))

  pub main_loop-Holds : (h : Hci) (ps : List (List ℕ)) → Holds R h (main_loop controller h ps)
  unfolding main_loop
  main_loop-Holds h [] = stay R laws h _
  main_loop-Holds h ([] ∷ ps) = main_loop-Holds h ps
  main_loop-Holds h ((t ∷ b) ∷ ps) =
      let s = handle_packet controller h (t ∷ b) in
      on_ended s.hci s.effects s.ended (handle_packet-Holds h (t ∷ b)).holds
        (main_loop-Holds s.hci ps).holds
    where
      on_ended :
          (h' : Hci) (es : List Effect) (e : Ended)
          → R h h' es
          → R h' (main_loop controller h' ps).hci (main_loop controller h' ps).effects
          → Holds R h
              (go_on (record { hci = h'; effects = es; ended = e }) (main_loop controller h' ps))
      on_ended h' es returned a b = record { holds = laws.follows h h' _ es _ a b }
      on_ended h' es failed a b = record { holds = laws.follows h h' _ es _ a b }
      on_ended h' es blocked a b = record { holds = laws.follows h h' _ es _ a b }
      on_ended h' es panicked a b = record { holds = a }
