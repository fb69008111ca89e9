-- ===== src/Hci/State/Demux/Run.antt =====
-- linux/hci.go: mainLoop runs each connection as if it were alone.
use gatt.Prelude.{
  ℕ, ◌≡◌, refl, ap, ◌∙◌, List, [], ◌∷◌, ◌++◌, false, drop, length, ltb, ◌==◌, ==_iff, Bool-cases,
  inl, inr,
}
use gatt.Hci.Command.{CmdParam}
use gatt.Hci.Event.{header_code, command_complete, command_status}
use gatt.Hci.Event.Code
use gatt.Hci.State.{Hci, Effect, Step, Ended, returned, failed, blocked, panicked, after, lookup}
use gatt.Hci.State.MainLoop.{dispatch_code, dispatch, handle_packet, main_loop, go_on}
use gatt.Hci.State.Handled.{
  Holds, if-Holds, option-Holds, stay, handle_number_of_completed_pkts-Holds,
}
use gatt.Hci.State.Demux.Steps.{
  Agrees, Quiet-Agrees, option-Agrees, if-Agrees, handle_disconnection_complete-Agrees,
  handle_le_meta-Agrees, handle_l2cap-Agrees,
}
use gatt.Hci.State.Demux.{
  other, code_signal, event_signal, signal, channel_step, channel_run, deliveries,
  deliveries-append, Quiet, Quiet-laws,
}

module _ (k : ℕ) (controller : CmdParam → List ℕ) (h : Hci) where
  dispatch_code-Agrees :
      (code : ℕ) (b : List ℕ)
      → Agrees k h (dispatch_code controller h code b) (code_signal k code b)
  unfolding dispatch_code
  dispatch_code-Agrees code b =
      let laws = Quiet-laws k in
      if-Agrees k controller h (code == Code.le_meta) _ _ _ _
        (handle_le_meta-Agrees k controller h b)
        (λ a.
          if-Agrees k controller h (code == Code.disconnection_complete) _ _ _ _
            (handle_disconnection_complete-Agrees k controller h b)
            (λ a. Quiet-Agrees k controller h _ (
              if-Holds (Quiet k) laws h (code == Code.number_of_completed_pkts) _ _
                (λ a. handle_number_of_completed_pkts-Holds (Quiet k) laws h b)
                (λ a.
                  if-Holds (Quiet k) laws h (code == Code.command_complete) _ _
                    (λ a.
                      option-Holds (Quiet k) laws h (command_complete b) _ _
                        (stay (Quiet k) laws h _) (λ e. record { holds = (refl, refl) }))
                    (λ a.
                      if-Holds (Quiet k) laws h (code == Code.command_status) _ _
                        (λ a.
                          option-Holds (Quiet k) laws h (command_status b) _ _
                            (stay (Quiet k) laws h _) (λ e. record { holds = (refl, refl) }))
                        (λ a. stay (Quiet k) laws h _))))))

  dispatch-Agrees : (b : List ℕ) → Agrees k h (dispatch controller h b) (event_signal k b)
  unfolding dispatch
  dispatch-Agrees b =
      option-Agrees k controller h (header_code b) _ _ _ _
        (Quiet-Agrees k controller h _ (stay (Quiet k) (Quiet-laws k) h _))
        (λ code. dispatch_code-Agrees code (drop 2 b))

  handle_packet-Quiet :
      (t : ℕ) (b : List ℕ)
      → (t == Code.packet_acl_data) ≡ false
      → (t == Code.packet_event) ≡ false
      → Holds (Quiet k) h (handle_packet controller h (t ∷ b))
  unfolding handle_packet
  handle_packet-Quiet t b e f =
      let laws = Quiet-laws k in
      if-Holds (Quiet k) laws h (t == Code.packet_command) _ _
        (λ a.
          if-Holds (Quiet k) laws h (ltb (length b) 2) _ _ (λ a. stay (Quiet k) laws h _)
            (λ a. stay (Quiet k) laws h _))
        (λ a.
          rw (e, f)
            (if-Holds (Quiet k) laws h (t == Code.packet_sco_data) _ _
              (λ a. stay (Quiet k) laws h _)
              (λ a.
                if-Holds (Quiet k) laws h (t == Code.packet_vendor) _ _
                  (λ a. stay (Quiet k) laws h _) (λ a. stay (Quiet k) laws h _))))

  handle_packet-Agrees : (p : List ℕ) → Agrees k h (handle_packet controller h p) (signal k p)
  unfolding handle_packet
  handle_packet-Agrees [] = Quiet-Agrees k controller h _ (stay (Quiet k) (Quiet-laws k) h _)
  handle_packet-Agrees (t ∷ b) = elim (Bool-cases (t == Code.packet_acl_data)) [
    | inl e ↦ rw ((==_iff t Code.packet_acl_data).0 e) (handle_l2cap-Agrees k controller h b)
    | inr e ↦ elim (Bool-cases (t == Code.packet_event)) [
      | inl f ↦ rw ((==_iff t Code.packet_event).0 f) (dispatch-Agrees b)
      | inr f ↦
          let q = Quiet-Agrees k controller h _ (handle_packet-Quiet t b e f) in
          let other_signal : signal k (t ∷ b) ≡ other = rw (e, f) refl in rw other_signal q
    ]
  ]

module _ (k : ℕ) (controller : CmdParam → List ℕ) where
  abbrev Joined : Hci → Step → List (List ℕ) → Type 0
  Joined h s ps =
      (lookup s.hci.conns k ≡ (channel_run k (lookup h.conns k) ps).buf)
      × (deliveries k s.effects ≡ (channel_run k (lookup h.conns k) ps).pdus)

  joined :
      (h h' : Hci) (es : List Effect) (p : List ℕ) (ps : List (List ℕ))
      → lookup h'.conns k ≡ (channel_step (lookup h.conns k) (signal k p)).buf
      → deliveries k es ≡ (channel_step (lookup h.conns k) (signal k p)).pdus
      → Joined h' (main_loop controller h' ps) ps
      → Joined h
          (after (record { hci = h'; effects = es; ended = returned }) (main_loop controller h' ps))
          (p ∷ ps)
  joined h h' es p ps a b i = (
    i.0 ∙ ap (λ c. (channel_run k c ps).buf) a,
    deliveries-append k es (main_loop controller h' ps).effects
        ∙ rw b (
            ap (λ x. (channel_step (lookup h.conns k) (signal k p)).pdus ++ x)
              (i.1 ∙ ap (λ c. (channel_run k c ps).pdus) a)),
  )

  go_on-Agrees :
      (h h' : Hci) (es : List Effect) (e : Ended) (p : List ℕ) (ps : List (List ℕ))
      → Agrees k h (record { hci = h'; effects = es; ended = e }) (signal k p)
      → ((main_loop controller h' ps).ended ≡ returned → Joined h' (main_loop controller h' ps) ps)
      → (go_on (record { hci = h'; effects = es; ended = e }) (main_loop controller h' ps)).ended
        ≡ returned
      → Joined h
          (go_on (record { hci = h'; effects = es; ended = e }) (main_loop controller h' ps))
          (p ∷ ps)
  go_on-Agrees h h' es returned p ps a ih r = joined h h' es p ps a.conns a.pdus (ih r)
  go_on-Agrees h h' es failed p ps a ih r = joined h h' es p ps a.conns a.pdus (ih r)
  go_on-Agrees h h' es blocked p ps a ih r = joined h h' es p ps a.conns a.pdus (ih r)
  go_on-Agrees h h' es panicked p ps a ih r = cc

  -- mainLoop, on any packets that it handles without a panic and whatever the controller responds,
  -- treats the connection with any handle as if it were alone: its buffer, or that it is not there, and
  -- the PDUs passed on to its reader, in order, are those of the one channel that follows the packets
  -- for this handle and no others.
  pub main_loop-channel_run :
      (h : Hci) (ps : List (List ℕ))
      → (main_loop controller h ps).ended ≡ returned
      → (lookup (main_loop controller h ps).hci.conns k ≡ (channel_run k (lookup h.conns k) ps).buf)
        × (deliveries k (main_loop controller h ps).effects
            ≡ (channel_run k (lookup h.conns k) ps).pdus)
  unfolding main_loop
  main_loop-channel_run h [] r = (refl, refl)
  main_loop-channel_run h ([] ∷ ps) r = main_loop-channel_run h ps r
  main_loop-channel_run h ((t ∷ b) ∷ ps) r =
      let s = handle_packet controller h (t ∷ b) in
      go_on-Agrees h s.hci s.effects s.ended (t ∷ b) ps
        (handle_packet-Agrees k controller h (t ∷ b)) (main_loop-channel_run s.hci ps) r
