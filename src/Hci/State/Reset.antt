-- ===== src/Hci/State/Reset.antt =====
-- linux/hci.go, resetDevice: the commands that set the device up, until one is refused.
use gatt.Prelude.{
  ℕ, ◌≡◌, ◌↔◌, refl, ap, List, [], ◌∷◌, Bool, true, false, ◌&&◌, ok, panic, ◌==◌, if◌then◌else◌,
  Bool-cases, inl, inr, ◌⊎◌,
}
use gatt.Hci.Command.{CmdParam}
use gatt.Hci.Command.Any.{Command, cmd_param}
use gatt.Hci.Sent.{check_resp, contains}
use gatt.Hci.State.{
  Hci, Effect, command, Step, Ended, returned, failed, panicked, done, if_ok, send_and_check_resp,
}

-- The sequence of resetDevice.
abbrev pub reset_sequence : List Command
reset_sequence =
    Command.reset
    ∷ Command.set_event_mask 0x3dbff807fffbffff
    ∷ Command.le_set_event_mask 0x000000000000001F
    ∷ Command.write_simple_pairing_mode 1
    ∷ Command.write_le_host_supported (record { le_supported_host = 1; simultaneous_le_host = 0 })
    ∷ Command.write_inquiry_mode 2
    ∷ Command.write_page_scan_type 1
    ∷ Command.write_inquiry_scan_type 1
    ∷ Command.write_device_class (0x40 ∷ 0x02 ∷ 0x04 ∷ [])
    ∷ Command.write_page_timeout 0x2000
    ∷ Command.write_default_link_policy 0x5
    ∷ Command.host_buffer_size (record {
      host_acl_data_packet_length = 0x1000;
      host_synchronous_data_packet_length = 0xff;
      host_total_num_acl_data_packets = 0x0014;
      host_total_num_synchronous_data_packets = 0x000a;
    })
    ∷ Command.le_set_scan_parameters (record {
      le_scan_type = 0x01;
      le_scan_interval = 0x0010;
      le_scan_window = 0x0010;
      own_address_type = 0x00;
      scanning_filter_policy = 0x00;
    })
    ∷ []

module _ (controller : CmdParam → List ℕ) where
  unfoldable pub send_all : Hci → List Command → Step
  send_all h [] = done h returned
  send_all h (c ∷ cs) =
      if_ok (send_and_check_resp controller h (cmd_param c) (0x00 ∷ [])) (λ h'. send_all h' cs)

  unfoldable pub reset_device : Hci → Step
  reset_device h = send_all h reset_sequence

  -- The response to a command begins with the status of success.
  abbrev pub succeeds : List ℕ → Bool
  succeeds [] = false
  succeeds (s ∷ b) = 0x00 == s

  -- The commands up to the first that is refused, with it.
  abbrev pub until_refused : List Command → List Effect
  until_refused [] = []
  until_refused (c ∷ cs) =
      let rest = until_refused cs in
      command (cmd_param c) ∷ (if succeeds (controller (cmd_param c)) then rest else [])

  abbrev pub all_succeed : List Command → Bool
  all_succeed [] = true
  all_succeed (c ∷ cs) = succeeds (controller (cmd_param c)) && all_succeed cs

  abbrev ended_by : List ℕ → Ended
  ended_by [] = panicked
  ended_by (s ∷ b) = if 0x00 == s then returned else failed

  send-ended_by :
      (h : Hci) (c : CmdParam)
      → send_and_check_resp controller h c (0x00 ∷ [])
        ≡ record { hci = h; effects = command c ∷ []; ended = ended_by (controller c) }
  unfolding send_and_check_resp check_resp contains
  send-ended_by h c = responded (controller c)
    where
      responded :
          (r : List ℕ)
          → (elim (check_resp (0x00 ∷ []) r) as (λ x. Step) [
            | panic ↦ record { hci = h; effects = command c ∷ []; ended = panicked }
            | ok good ↦ record {
              hci = h;
              effects = command c ∷ [];
              ended = if good then returned else failed;
            }
          ])
            ≡ record { hci = h; effects = command c ∷ []; ended = ended_by r }
      responded [] = refl
      responded (s ∷ b) = elim (Bool-cases (0x00 == s)) [ inl e ↦ rw e refl | inr e ↦ rw e refl ]

  ended_by-succeeds :
      (r : List ℕ)
      → ((succeeds r ≡ true) × (ended_by r ≡ returned))
        ⊎ ((succeeds r ≡ false) × ((ended_by r ≡ failed) ⊎ (ended_by r ≡ panicked)))
  ended_by-succeeds [] = inr (refl, inr refl)
  ended_by-succeeds (s ∷ b) = elim (Bool-cases (0x00 == s)) [
    | inl e ↦ inl (e, rw e refl)
    | inr e ↦ inr (e, inl (rw e refl))
  ]

  send_all-until_refused :
      (h : Hci) (cs : List Command)
      → ((send_all h cs).effects ≡ until_refused cs)
        × (((send_all h cs).ended ≡ returned) ↔ (all_succeed cs ≡ true))
  unfolding send_all if_ok
  send_all-until_refused h [] = (refl, (λ e. refl, λ e. refl))
  send_all-until_refused h (c ∷ cs) =
      let rest = send_all-until_refused h cs in
      rw (send-ended_by h (cmd_param c)) (elim (ended_by-succeeds (controller (cmd_param c))) [
        | inl (s, e) ↦ rw (e, s) (ap (λ r. command (cmd_param c) ∷ r) rest.0, rest.1)
        | inr (s, inl e) ↦ rw (e, s) (refl, (λ k. cc, λ k. cc))
        | inr (s, inr e) ↦ rw (e, s) (refl, (λ k. cc, λ k. cc))
      ])

  -- resetDevice, whatever the controller responds: what it sends is the commands of its sequence up to
  -- the first that is refused or has no response, with it; and it succeeds exactly if the controller
  -- accepts them all.
  pub reset_device-until_refused :
      (h : Hci)
      → ((reset_device h).effects ≡ until_refused reset_sequence)
        × (((reset_device h).ended ≡ returned) ↔ (all_succeed reset_sequence ≡ true))
  unfolding reset_device
  reset_device-until_refused h = send_all-until_refused h reset_sequence
