-- ===== src/Hci/State/MainLoop.antt =====
-- linux/hci.go: the handlers that send commands of their own, the dispatch of events, and the main loop.
use gatt.Prelude.{ℕ, List, [], ◌∷◌, true, none, some, length, drop, ltb, ◌==◌, if◌then◌else◌}
use gatt.Hci.Command.{CmdParam}
use gatt.Hci.Event.{
  header_code, disconnection_complete, command_complete, command_status, LeConnectionComplete,
  le_connection_complete,
}
use gatt.Hci.Event.Code
use gatt.Hci.Sent.{closed, completed}
use gatt.Hci.State.{
  Hci, answered, Step, returned, failed, blocked, panicked, done, emit, after, then_do, lookup,
  delete, insert, enable_advertising,
}
use gatt.Hci.State.Handlers.{
  recovered, update_parameters, accept, handle_ltk_request, handle_advertisement, handle_l2cap,
  handle_number_of_completed_pkts,
}

-- What follows a packet, if the program has not ended with a panic.
abbrev pub go_on : Step → Step → Step
go_on s t = elim s.ended [
  | returned ↦ after s t
  | failed ↦ after s t
  | blocked ↦ after s t
  | panicked ↦ s
]

module _ (controller : CmdParam → List ℕ) where
  -- handleConnection on an event that is read; the status of the event is not looked at.
  unfoldable pub connected : Hci → LeConnectionComplete → Step
  connected h ep =
      let h1 = record h { conns = insert h.conns ep.connection_handle [] } in
      then_do (enable_advertising controller h1 true)
        (λ h2. then_do (update_parameters h2 ep) (λ h3. accept h3 ep))

  unfoldable pub handle_connection : Hci → List ℕ → Step
  handle_connection h b = elim (le_connection_complete b) [
    | none ↦ done h returned
    | some ep ↦ recovered (connected h ep)
  ]

  unfoldable pub handle_disconnection_complete : Hci → List ℕ → Step
  handle_disconnection_complete h b = elim (disconnection_complete b) [
    | none ↦ done h failed
    | some ep ↦ elim (lookup h.conns ep.connection_handle) [
      | none ↦ done h returned
      | some buf ↦
          then_do
            (enable_advertising controller
              (record h { conns = delete h.conns ep.connection_handle }) true)
            (λ h'. done h' returned)
    ]
  ]

  -- `b[0]` panics on an empty event, which is recovered.
  unfoldable pub handle_le_meta : Hci → List ℕ → Step
  handle_le_meta h [] = done h returned
  handle_le_meta h (code ∷ b) =
      if code == Code.le_connection_complete
      then handle_connection h (code ∷ b)
      else if code == Code.le_connection_update_complete
      then done h returned
      else if code == Code.le_advertising_report
      then handle_advertisement h (code ∷ b)
      else if code == Code.le_ltk_request
      then handle_ltk_request h (code ∷ b)
      else done h failed

  -- Event.Dispatch, with the handlers that NewHCI sets; HandleComplete and HandleStatus pass the event
  -- on to the commands.
  unfoldable pub dispatch_code : Hci → ℕ → List ℕ → Step
  dispatch_code h code b =
      if code == Code.le_meta
      then handle_le_meta h b
      else if code == Code.disconnection_complete
      then handle_disconnection_complete h b
      else if code == Code.number_of_completed_pkts
      then handle_number_of_completed_pkts h b
      else if code == Code.command_complete
      then elim (command_complete b) [
        | none ↦ done h failed
        | some e ↦
            emit h
              (answered (record { op = e.command_op_code; answer = completed e.return_parameters }))
      ]
      else if code == Code.command_status
      then elim (command_status b) [
        | none ↦ done h failed
        | some e ↦ emit h (answered (record { op = e.command_opcode; answer = closed }))
      ]
      else done h returned

  unfoldable pub dispatch : Hci → List ℕ → Step
  dispatch h b = elim (header_code b) [
    | none ↦ done h failed
    | some code ↦ dispatch_code h code (drop 2 b)
  ]

  -- A command is only logged, with the reads of `b[0]` and `b[1]`. Any other type ends the program.
  unfoldable pub handle_packet : Hci → List ℕ → Step
  handle_packet h [] = done h panicked
  handle_packet h (t ∷ b) =
      if t == Code.packet_command
      then (if ltb (length b) 2 then done h panicked else done h returned)
      else if t == Code.packet_acl_data
      then handle_l2cap h b
      else if t == Code.packet_sco_data
      then done h failed
      else if t == Code.packet_event
      then dispatch h b
      else if t == Code.packet_vendor
      then done h failed
      else done h panicked

  -- mainLoop, on what the reads of the device give; one of no bytes is skipped.
  unfoldable pub main_loop : Hci → List (List ℕ) → Step
  main_loop h [] = done h returned
  main_loop h ([] ∷ ps) = main_loop h ps
  main_loop h ((t ∷ b) ∷ ps) = let s = handle_packet h (t ∷ b) in go_on s (main_loop s.hci ps)
