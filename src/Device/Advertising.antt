-- ===== src/Device/Advertising.antt =====
-- device_linux.go and linux/hci.go: the commands that advertising sends, and what is advertised.
use gatt.Prelude.{
  ℕ, ◌%◌, ◌≡◌, refl, ap, ◌∙◌, List, [], ◌∷◌, ◌++◌, append-nil, Bool, true, false, ◌&&◌, Option,
  none, some, length, ◌==◌, if◌then◌else◌, Bool-cases, inl, inr,
}
use gatt.Adv.Packet.{AdvPacket, bytes, packet_length}
use gatt.Hci.Command.{CmdParam}
use gatt.Hci.Command.LeAdvertising.{
  le_set_advertise_enable, le_set_advertising_parameters, le_set_advertising_data,
  le_set_scan_response_data,
}
use gatt.Hci.Sent.{check_resp, contains}
use gatt.Hci.State.{
  done, restore_advertising, Hci, Effect, command, Step, returned, then_do, send_and_check_resp,
  enable_advertising, set_advertise_enable, send_cmd_with_adv_off,
}
use gatt.Device.{
  Device, Outcome, finished, on_hci, go_on, flush_adv_param, flush_scan_resp, flush_adv_data,
  update, advertise,
}

-- The command that turns advertising on, unless it is on and the device has its connections.
abbrev pub enabling : Hci → List Effect
enabling h =
    if h.adv && (length h.conns == h.max_conn) then [] else command (le_set_advertise_enable 1) ∷ []

-- A command with advertising turned off around it.
abbrev pub wrapped : Hci → CmdParam → List Effect
wrapped h c = command (le_set_advertise_enable 0) ∷ command c ∷ (if h.adv then enabling h else [])

abbrev sent_by : Hci → List Effect → Step
sent_by h es = record { hci = h; effects = es; ended = returned }

-- What update sends for what is pending.
abbrev pub flushed {ℓ} : {A : Type ℓ} → Hci → (A → CmdParam) → Option A → List Effect
flushed h f none = []
flushed h f (some c) = wrapped h (f c)

then_do-sent_by :
    (s : Step) (f : Hci → Step) (h h' : Hci) (es fs : List Effect)
    → s ≡ sent_by h es
    → f h ≡ sent_by h' fs
    → then_do s f ≡ sent_by h' (es ++ fs)
unfolding then_do
then_do-sent_by s f h h' es fs a b = rw a (rw b refl)

if-sent_by :
    (b : Bool) (h : Hci) {s : Step} {es : List Effect}
    → s ≡ sent_by h es
    → (if b then s else done h returned) ≡ sent_by h (if b then es else [])
if-sent_by true h e = e
if-sent_by false h e = refl

module _ (controller : CmdParam → List ℕ)
    (accepts : (c : CmdParam) → controller c ≡ 0x00 ∷ []) where
  send_ok :
      (h : Hci) (c : CmdParam) → send_and_check_resp controller h c [] ≡ sent_by h (command c ∷ [])
  unfolding send_and_check_resp check_resp
  send_ok h c = refl

  send_checked :
      (h : Hci) (c : CmdParam)
      → send_and_check_resp controller h c (0x00 ∷ []) ≡ sent_by h (command c ∷ [])
  unfolding send_and_check_resp check_resp contains
  send_checked h c = rw (send_and_check_resp, accepts c) refl

  enable_ok : (h : Hci) → enable_advertising controller h true ≡ sent_by h (enabling h)
  unfolding enable_advertising
  enable_ok h = elim (Bool-cases (h.adv && (length h.conns == h.max_conn))) [
    | inl e ↦ rw e refl
    | inr e ↦ rw e (send_checked h (le_set_advertise_enable 1))
  ]

  disable_ok :
      (h : Hci)
      → enable_advertising controller h false ≡ sent_by h (command (le_set_advertise_enable 0) ∷ [])
  unfolding enable_advertising
  disable_ok h = send_checked h (le_set_advertise_enable 0)

  restore_ok :
      (h : Hci) → restore_advertising controller h ≡ sent_by h (if h.adv then enabling h else [])
  unfolding restore_advertising
  restore_ok h = if-sent_by h.adv h (enable_ok h)

  send_cmd_with_adv_off-wrapped :
      (h : Hci) (c : CmdParam) → send_cmd_with_adv_off controller h c ≡ sent_by h (wrapped h c)
  unfolding send_cmd_with_adv_off
  send_cmd_with_adv_off-wrapped h c = then_do-sent_by _ _ h h _ _ (disable_ok h) (
      then_do-sent_by _ _ h h _ _ (send_ok h c) (
        then_do-sent_by _ _ h h _ [] (restore_ok h) (ap (done h) (ap (λ s. s.ended) (send_ok h c)))
        ∙ ap (sent_by h) (append-nil (if h.adv then enabling h else []))))

  -- What a method of the device does when it succeeds.
  abbrev success : Device → List Effect → Outcome
  success d es = record { device = d; effects = es; ended = returned }

  go_on-success :
      (o : Outcome) (f : Device → Outcome) (d d' : Device) (es fs : List Effect)
      → o ≡ success d es
      → f d ≡ success d' fs
      → go_on o f ≡ success d' (es ++ fs)
  unfolding go_on
  go_on-success o f d d' es fs a b = rw a (rw b refl)

  flush-success {ℓ} :
      {A : Type ℓ} (o : Option A) (f : A → CmdParam) (d : Device) (clear : Device → Device)
      → (o ≡ none → d ≡ clear d)
      → elim o [
        | none ↦ finished d returned
        | some c ↦
            go_on
              (on_hci d (send_cmd_with_adv_off controller d.hci (f c)))
              (λ d. finished (clear d) returned)
      ]
        ≡ success (clear d) (flushed d.hci f o)
  flush-success none f d clear e = ap (λ d. success d []) (e refl)
  flush-success (some c) f d clear e =
      go_on-success _ _ d (clear d) (wrapped d.hci (f c)) []
        (ap (on_hci d) (send_cmd_with_adv_off-wrapped d.hci (f c))) refl
      ∙ ap (success (clear d)) (append-nil (wrapped d.hci (f c)))

  flush_adv_param_ok :
      (d : Device)
      → flush_adv_param controller d
        ≡ success
            (record d { adv_param = none })
            (flushed d.hci le_set_advertising_parameters d.adv_param)
  unfolding flush_adv_param
  flush_adv_param_ok d =
      flush-success d.adv_param le_set_advertising_parameters d (λ d. record d { adv_param = none })
        (λ e. rw e refl)

  flush_scan_resp_ok :
      (d : Device)
      → flush_scan_resp controller d
        ≡ success
            (record d { scan_resp = none })
            (flushed d.hci le_set_scan_response_data d.scan_resp)
  unfolding flush_scan_resp
  flush_scan_resp_ok d =
      flush-success d.scan_resp le_set_scan_response_data d (λ d. record d { scan_resp = none })
        (λ e. rw e refl)

  flush_adv_data_ok :
      (d : Device)
      → flush_adv_data controller d
        ≡ success (record d { adv_data = none }) (flushed d.hci le_set_advertising_data d.adv_data)
  unfolding flush_adv_data
  flush_adv_data_ok d =
      flush-success d.adv_data le_set_advertising_data d (λ d. record d { adv_data = none })
        (λ e. rw e refl)

  -- Advertise, where the controller accepts every command: it succeeds, sends each command that is
  -- pending once, in the order of the parameters, the scan response and the new data, with advertising
  -- off around each, turns advertising on at the end unless the device has all its connections, even if
  -- it was off before, and leaves nothing pending.
  pub advertise-commands :
      (d : Device) (a : AdvPacket)
      → advertise controller d a ≡ record {
        device = record d {
          hci = record d.hci { adv = true };
          adv_param = none;
          scan_resp = none;
          adv_data = none;
        };
        effects =
            flushed d.hci le_set_advertising_parameters d.adv_param
            ++ (flushed d.hci le_set_scan_response_data d.scan_resp
                ++ wrapped d.hci (
                    le_set_advertising_data (record {
                      advertising_data_length = packet_length a % 256;
                      advertising_data = bytes a;
                    })))
            ++ enabling (record d.hci { adv = true });
        ended = returned;
      }
  unfolding advertise update set_advertise_enable
  advertise-commands d a =
      go_on-success _ _ _ _ _ _
        (go_on-success _ _ _ _ _ _ (flush_adv_param_ok _)
          (go_on-success _ _ _ _ _ _ (flush_scan_resp_ok _) (flush_adv_data_ok _)))
        (ap (on_hci (record d { adv_param = none; scan_resp = none; adv_data = none }))
          (enable_ok (record d.hci { adv = true })))
