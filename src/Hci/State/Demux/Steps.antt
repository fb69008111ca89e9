-- ===== src/Hci/State/Demux/Steps.antt =====
-- linux/hci.go: the handlers, seen by one connection.
use gatt.Prelude.{
  ℕ, ◌≡◌, refl, ap, ◌∙◌, List, [], ◌∷◌, map, Bool, true, false, Option, none, some, ◌==◌, ==_iff,
  if◌then◌else◌, Bool-cases, Option-cases, inl, inr,
}
use gatt.Hci.L2cap.{AclData, unmarshal, receive_acl}
use gatt.Hci.Command.{CmdParam}
use gatt.Hci.Event.{LeConnectionComplete, disconnection_complete, le_connection_complete}
use gatt.Hci.Event.Code
use gatt.Hci.State.{
  Hci, delivered, Step, returned, done, then_do, lookup, delete, insert, enable_advertising,
}
use gatt.Hci.State.Handlers.{update_parameters, recovered, handle_l2cap}
use gatt.Hci.State.MainLoop.{
  connected, handle_connection, handle_disconnection_complete, handle_le_meta,
}
use gatt.Hci.State.Handled.{
  Holds, if-Holds, then_do-Holds, recovered-Holds, stay, enable_advertising-Holds,
  update_parameters-Holds, accept-Holds, handle_advertisement-Holds, handle_ltk_request-Holds,
}
use gatt.Hci.State.Demux.{
  Signal, disconnected, received, other, opening, disconnecting, le_signal, acl_signal,
  channel_step, deliveries, deliveries-same, deliveries-different, Quiet, Quiet-laws,
  lookup-delete_same, lookup-delete_different,
}

pub record Agrees (k : ℕ) (h : Hci) (s : Step) (sig : Signal) : Type 0 where
  pub conns : lookup s.hci.conns k ≡ (channel_step (lookup h.conns k) sig).buf
  pub pdus : deliveries k s.effects ≡ (channel_step (lookup h.conns k) sig).pdus

module _ (k : ℕ) (controller : CmdParam → List ℕ) (h : Hci) where
  pub Quiet-Agrees : (s : Step) → Holds (Quiet k) h s → Agrees k h s other
  Quiet-Agrees s q = record { conns = ap (λ cs. lookup cs k) q.holds.0; pdus = q.holds.1 }

  pub option-Agrees {ℓ} :
      {A : Type ℓ} (o : Option A) (s : Step) (f : A → Step) (x : Signal) (g : A → Signal)
      → Agrees k h s x
      → ((a : A) → Agrees k h (f a) (g a))
      → Agrees k h (elim o [ none ↦ s | some a ↦ f a ]) (elim o [ none ↦ x | some a ↦ g a ])
  option-Agrees none s f x g a b = a
  option-Agrees (some c) s f x g a b = b c

  pub if-Agrees :
      (b : Bool) (s t : Step) (x y : Signal)
      → Agrees k h s x
      → (b ≡ false → Agrees k h t y)
      → Agrees k h (if b then s else t) (if b then x else y)
  if-Agrees true s t x y a b = a
  if-Agrees false s t x y a b = b refl

  connected-Quiet :
      (ep : LeConnectionComplete)
      → Holds
          (Quiet k)
          (record h { conns = insert h.conns ep.connection_handle [] })
          (recovered (connected controller h ep))
  unfolding connected
  connected-Quiet ep =
      let h1 = record h { conns = insert h.conns ep.connection_handle [] } in
      let laws = Quiet-laws k in
      recovered-Holds (Quiet k) laws h1 _ (
        then_do-Holds (Quiet k) laws h1 (enable_advertising controller h1 true) _
          (enable_advertising-Holds (Quiet k) laws controller h1 true)
          (λ h2.
            then_do-Holds (Quiet k) laws h2 (update_parameters h2 ep) _
              (update_parameters-Holds (Quiet k) laws h2 ep)
              (λ h3. accept-Holds (Quiet k) laws h3 ep)))

  handle_connection-Agrees :
      (b : List ℕ) → Agrees k h (handle_connection controller h b) (opening k b)
  unfolding handle_connection
  handle_connection-Agrees b =
      option-Agrees (le_connection_complete b) _ _ _ _
        (Quiet-Agrees _ (stay (Quiet k) (Quiet-laws k) h _))
        (λ ep.
          let q = (connected-Quiet ep).holds in
          elim (Bool-cases (ep.connection_handle == k)) [
            | inl f ↦ rw f (record { conns = ap (λ cs. lookup cs k) q.0 ∙ rw f refl; pdus = q.1 })
            | inr f ↦ rw f (record {
              conns =
                  ap (λ cs. lookup cs k) q.0
                  ∙ rw f (lookup-delete_different h.conns ep.connection_handle k f);
              pdus = q.1;
            })
          ])

  same_handle :
      (hh : ℕ) {o : Option (List ℕ)}
      → (hh == k) ≡ true
      → lookup h.conns hh ≡ o
      → lookup h.conns k ≡ o
  same_handle hh f e = rw⁻¹ ((==_iff hh k).0 f) e

  deleted-Quiet :
      (hh : ℕ)
      → Holds
          (Quiet k)
          (record h { conns = delete h.conns hh })
          (then_do
            (enable_advertising controller (record h { conns = delete h.conns hh }) true)
            (λ h'. done h' returned))
  deleted-Quiet hh =
      let h1 = record h { conns = delete h.conns hh } in
      let laws = Quiet-laws k in
      then_do-Holds (Quiet k) laws h1 (enable_advertising controller h1 true) _
        (enable_advertising-Holds (Quiet k) laws controller h1 true)
        (λ h2. stay (Quiet k) laws h2 _)

  deleted-Agrees :
      (hh : ℕ)
      → Agrees k h
          (elim (lookup h.conns hh) [
            | none ↦ done h returned
            | some buf ↦
                then_do
                  (enable_advertising controller (record h { conns = delete h.conns hh }) true)
                  (λ h'. done h' returned)
          ])
          (if hh == k then disconnected else other)
  deleted-Agrees hh =
      let q = (deleted-Quiet hh).holds in
      elim (Option-cases (lookup h.conns hh)) [
        | inl e ↦ elim (Bool-cases (hh == k)) [
          | inl f ↦ rw (e, f) (record { conns = same_handle hh f e; pdus = refl })
          | inr f ↦ rw (e, f) (record { conns = refl; pdus = refl })
        ]
        | inr (buf, e) ↦ elim (Bool-cases (hh == k)) [
          | inl f ↦
              rw (e, f)
                (record {
                  conns = ap (λ cs. lookup cs k) q.0 ∙ lookup-delete_same h.conns hh k f;
                  pdus = q.1;
                })
          | inr f ↦
              rw (e, f)
                (record {
                  conns = ap (λ cs. lookup cs k) q.0 ∙ lookup-delete_different h.conns hh k f;
                  pdus = q.1;
                })
        ]
      ]

  pub handle_disconnection_complete-Agrees :
      (b : List ℕ) → Agrees k h (handle_disconnection_complete controller h b) (disconnecting k b)
  unfolding handle_disconnection_complete
  handle_disconnection_complete-Agrees b =
      option-Agrees (disconnection_complete b) _ _ _ _
        (Quiet-Agrees _ (stay (Quiet k) (Quiet-laws k) h _))
        (λ ep. deleted-Agrees ep.connection_handle)

  pub handle_le_meta-Agrees :
      (b : List ℕ) → Agrees k h (handle_le_meta controller h b) (le_signal k b)
  unfolding handle_le_meta
  handle_le_meta-Agrees [] = Quiet-Agrees _ (stay (Quiet k) (Quiet-laws k) h _)
  handle_le_meta-Agrees (code ∷ b) =
      if-Agrees (code == Code.le_connection_complete) _ _ _ _ (handle_connection-Agrees (code ∷ b))
        (λ a. Quiet-Agrees _ (
          let laws = Quiet-laws k in
          if-Holds (Quiet k) laws h (code == Code.le_connection_update_complete) _ _
            (λ a. stay (Quiet k) laws h _)
            (λ a.
              if-Holds (Quiet k) laws h (code == Code.le_advertising_report) _ _
                (λ a. handle_advertisement-Holds (Quiet k) laws h (code ∷ b))
                (λ a.
                  if-Holds (Quiet k) laws h (code == Code.le_ltk_request) _ _
                    (λ a. handle_ltk_request-Holds (Quiet k) laws h (code ∷ b))
                    (λ a. stay (Quiet k) laws h _)))))

  received-Agrees :
      (a : AclData)
      → Agrees k h
          (elim (lookup h.conns a.attr) [
            | none ↦ done h returned
            | some buf ↦
                let r = receive_acl buf a in
                record {
                  hci = record h { conns = insert h.conns a.attr r.buf };
                  effects = map (delivered a.attr) r.pdus;
                  ended = returned;
                }
          ])
          (if a.attr == k then received a else other)
  received-Agrees a = elim (Option-cases (lookup h.conns a.attr)) [
    | inl e ↦ elim (Bool-cases (a.attr == k)) [
      | inl f ↦
          let g : lookup h.conns k ≡ none = same_handle a.attr f e in
          rw (e, f) (record { conns = rw g refl; pdus = rw g refl })
      | inr f ↦ rw (e, f) (record { conns = refl; pdus = refl })
    ]
    | inr (buf, e) ↦ elim (Bool-cases (a.attr == k)) [
      | inl f ↦
          let g : lookup h.conns k ≡ some buf = same_handle a.attr f e in
          rw (e, f)
            (record {
              conns = rw (f, g) refl;
              pdus = rw g (deliveries-same a.attr k (receive_acl buf a).pdus f);
            })
      | inr f ↦
          rw (e, f)
            (record {
              conns = rw f (lookup-delete_different h.conns a.attr k f);
              pdus = deliveries-different a.attr k (receive_acl buf a).pdus f;
            })
    ]
  ]

  pub handle_l2cap-Agrees : (b : List ℕ) → Agrees k h (handle_l2cap h b) (acl_signal k b)
  unfolding handle_l2cap
  handle_l2cap-Agrees b =
      option-Agrees (unmarshal b) _ _ _ _ (Quiet-Agrees _ (stay (Quiet k) (Quiet-laws k) h _))
        received-Agrees
