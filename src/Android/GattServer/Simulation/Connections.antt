-- ===== src/Android/GattServer/Simulation/Connections.antt =====
-- Connections, disconnections and a change of the MTU, on the subscriptions.
use gatt.Prelude.{
  ℕ, ◌<◌, ◌≡◌, refl, sym, ap, subst, ◌∙◌, List, [], ◌∷◌, ◌++◌, Bool, false, Option, none, some,
  arith, length, bytes_equal, bytes_equal_iff, if◌then◌else◌, ◌==◌, Bool-cases, Option-cases, inl,
  inr,
}
use gatt.Prelude.{update, update-append, length-update, get_elem?-lt}
use gatt.Android.Maps.{Text, find, erase, store, find-erase_other, find-erase_same, find-store}
use gatt.Android.GattServer.{
  Central, GattServer, addr_at, notifier_key, new_central, close_central, set_mtu, pop_entries,
  stop_each, stop_for_address, remember_connected_central, disconnect_central,
}
use gatt.Android.GattServer.Connected.{
  IsAddress, Connected, addr_at-append, addr_at-update, set_mtu-Connected, close_central-KeepsAddr,
  set_mtu-KeepsAddr,
}
use gatt.Android.GattServer.Connected.Changes.{
  add-Connected, erase-Connected-close, erase-Connected-none,
}
use gatt.Android.GattServer.Subscribed.{Entry, All-find, more-Subscribed}
use gatt.Android.GattServer.Subscribed.Popped.{pop-Subscribed}
use gatt.Android.GattServer.Subscribed.Modes.{mode-none, mode-pop, notifier_key-addr}
use gatt.Android.GattServer.Simulation.{Subscriptions, forget, Simulates, added-Simulates}

module _ (gs : GattServer) (s : Subscriptions) (h : Simulates gs s) where
  -- The notifiers of an address are stopped while only this address changes among the centrals.
  module _ (a : Text) (len : IsAddress a) (m : List (Text × ℕ)) (cs cs' : List Central)
      (fewer : (b : Text) → bytes_equal a b ≡ false → find m b ≡ find gs.centrals b)
      (more : (q : ℕ) (b : Text) → addr_at gs.made_centrals q ≡ some b → addr_at cs q ≡ some b)
      (same : (q : ℕ) → addr_at cs' q ≡ addr_at cs q) (k : Connected m cs') where
    abbrev popping : GattServer
    popping = record gs { centrals = m; made_centrals = cs }

    pub stopped-Simulates :
        Simulates (record (stop_for_address popping a) { made_centrals = cs' }) (forget s a)
    unfolding stop_for_address
    stopped-Simulates = record {
      connected = k;
      subscribed =
          more-Subscribed m cs (pop_entries popping a gs.notifiers).0
            (stop_each (pop_entries popping a gs.notifiers).1 gs.made_notifiers)
            (pop-Subscribed popping gs.centrals a len
              (more-Subscribed gs.centrals gs.made_centrals gs.notifiers gs.made_notifiers
                h.subscribed gs.centrals cs more (λ b q e. e))
              m fewer)
            m cs' (λ q b e. same q ∙ e) (λ b q e. e);
      modes = λ u b lb.
          mode-pop popping gs.centrals a len
            (more-Subscribed gs.centrals gs.made_centrals gs.notifiers gs.made_notifiers
              h.subscribed gs.centrals cs more (λ b q e. e))
            u b lb
          ∙ ap (λ (o : Option Bool). if bytes_equal a b then none else o) (h.modes u b lb);
    }

  -- A subscription from elsewhere is none where the central is not connected.
  pub absent : (a : Text) → find gs.centrals a ≡ none → IsAddress a → (u : Text) → s u a ≡ none
  absent a free len u =
      sym (h.modes u a len) ∙ (elim (Option-cases (find gs.notifiers (notifier_key u a))) [
        | inl e ↦ mode-none gs.notifiers gs.made_notifiers (notifier_key u a) e
        | inr (p, e) ↦
            let i =
              All-find (Entry gs.centrals gs.made_centrals gs.made_notifiers) gs.notifiers
                (notifier_key u a) p h.subscribed.listed e in
            let same : i.addr ≡ a =
              notifier_key-addr i.n.char u i.addr a i.same_key i.is_address len in
            let clash : none ≡ some i.n.c =
              sym free ∙ ap (find gs.centrals) (sym same) ∙ i.connected in
            cc
      ])

  pub disconnect-Simulates :
      (a : Text) → IsAddress a → Simulates (disconnect_central gs a).0 (forget s a)
  unfolding disconnect_central
  disconnect-Simulates a len = elim (Option-cases (find gs.centrals a)) [
    | inl e ↦
        rw (disconnect_central, e)
          (stopped-Simulates a len (erase gs.centrals a) gs.made_centrals gs.made_centrals
            (find-erase_other gs.centrals a) (λ q b t. t) (λ q. refl)
            (erase-Connected-none gs.centrals gs.made_centrals h.connected a e))
    | inr (c, e) ↦
        rw (disconnect_central, e)
          (stopped-Simulates a len (erase gs.centrals a) gs.made_centrals
            (update gs.made_centrals c close_central) (find-erase_other gs.centrals a) (λ q b t. t)
            (addr_at-update gs.made_centrals c close_central close_central-KeepsAddr)
            (erase-Connected-close gs.centrals gs.made_centrals h.connected a c e))
  ]

  -- onConnectionStateChange, connected
  pub connect-Simulates :
      (a : Text) (obj : ℕ)
      → IsAddress a
      → Simulates
          (remember_connected_central
            (record gs { made_centrals = gs.made_centrals ++ (new_central obj a ∷ []) })
            a
            (length gs.made_centrals))
          (forget s a)
  unfolding remember_connected_central new_central store
  connect-Simulates a obj len = elim (Option-cases (find gs.centrals a)) [
    | inl e ↦
        rw (remember_connected_central, e)
          (record {
            connected = (added-Simulates gs s h a obj 23 e len).connected;
            subscribed = (added-Simulates gs s h a obj 23 e len).subscribed;
            modes = λ u b lb. h.modes u b lb ∙ forgotten u b e;
          })
    | inr (c, e) ↦
        let o = h.connected.known a c e in
        let in_range : c < length gs.made_centrals = get_elem?-lt gs.made_centrals c o.c o.stored in
        let not_new : (c == length gs.made_centrals) ≡ false = ground arith in
        rw (remember_connected_central, e, not_new)
          (stopped-Simulates a len (store gs.centrals a (length gs.made_centrals))
            (gs.made_centrals ++ (new_central obj a ∷ []))
            (update (gs.made_centrals ++ (new_central obj a ∷ [])) c close_central)
            (λ b d. rw (find-store gs.centrals a b (length gs.made_centrals), d) refl)
            (λ q b t. addr_at-append gs.made_centrals (new_central obj a) q b t)
            (addr_at-update (gs.made_centrals ++ (new_central obj a ∷ [])) c close_central
              close_central-KeepsAddr)
            (renewed c e in_range))
  ]
    where
      renewed :
          (c : ℕ)
          → find gs.centrals a ≡ some c
          → c < length gs.made_centrals
          → Connected
              (store gs.centrals a (length gs.made_centrals))
              (update (gs.made_centrals ++ (new_central obj a ∷ [])) c close_central)
      renewed c e lt =
          rw (update-append gs.made_centrals (new_central obj a ∷ []) c close_central lt) (
            subst
              (λ n.
                Connected ((a, n) ∷ erase gs.centrals a)
                  (update gs.made_centrals c close_central ++ (new_central obj a ∷ [])))
              (length-update gs.made_centrals c close_central)
              (add-Connected (erase gs.centrals a) (update gs.made_centrals c close_central)
                (erase-Connected-close gs.centrals gs.made_centrals h.connected a c e) a obj 23
                (find-erase_same gs.centrals a) len))

      forgotten : (u b : Text) → find gs.centrals a ≡ none → s u b ≡ forget s a u b
      forgotten u b e = elim (Bool-cases (bytes_equal a b)) [
        | inl t ↦ rw t (ap (s u) (sym ((bytes_equal_iff a b).0 t)) ∙ absent a e len u)
        | inr t ↦ rw t refl
      ]

  -- handleServerMtuChanged
  pub set_mtu-Simulates :
      (c mtu : ℕ)
      → Simulates (record gs { made_centrals = update gs.made_centrals c (set_mtu mtu) }) s
  set_mtu-Simulates c mtu = record {
    connected = set_mtu-Connected gs.centrals gs.made_centrals h.connected c mtu;
    subscribed =
        more-Subscribed gs.centrals gs.made_centrals gs.notifiers gs.made_notifiers h.subscribed
          gs.centrals (update gs.made_centrals c (set_mtu mtu))
          (λ q b e. addr_at-update gs.made_centrals c (set_mtu mtu) (set_mtu-KeepsAddr mtu) q ∙ e)
          (λ b q e. e);
    modes = h.modes;
  }
