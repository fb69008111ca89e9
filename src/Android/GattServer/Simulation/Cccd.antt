-- ===== src/Android/GattServer/Simulation/Cccd.antt =====
-- Writes of a configuration descriptor, on the subscriptions.
use gatt.Prelude.{
  ℕ, ◌≡◌, refl, sym, ap, subst, ◌∙◌, [], ◌∷◌, ◌++◌, Bool, true, false, ◌&&◌, Option, none, some,
  bytes_equal, bytes_equal_iff, if◌then◌else◌, Bool-cases, Option-cases, inl, inr,
}
use gatt.Prelude.{update}
use gatt.Android.Maps.{Text, find, erase, store, find-erase_same}
use gatt.Android.GattServer.{ServerNotifier, GattServer, stop, addr_at, notifier_key}
use gatt.Android.GattServer.Descriptors.{enable_cccd, disable_cccd, stop_existing}
use gatt.Android.GattServer.Connected.{IsAddress}
use gatt.Android.GattServer.Subscribed.Changes.{clear-Subscribed, add-Subscribed}
use gatt.Android.GattServer.Subscribed.{Subscribed}
use gatt.Android.GattServer.Subscribed.Modes.{
  mode, mode-none, mode-clear, mode-add, notifier_key-addr, notifier_key-uuid,
}
use gatt.Android.GattServer.Simulation.{Subscriptions, put, Simulates, length-stop_existing}

module _ (gs : GattServer) (s : Subscriptions) (h : Simulates gs s) where
  module _ (u a : Text) (len : IsAddress a) where
    abbrev key : Text
    key = notifier_key u a

    key-test :
        (v b : Text)
        → IsAddress b
        → bytes_equal (notifier_key u a) (notifier_key v b) ≡ (bytes_equal u v && bytes_equal a b)
    key-test v b lb = elim (Bool-cases (bytes_equal (notifier_key u a) (notifier_key v b))) [
      | inl t ↦
          let e = (bytes_equal_iff (notifier_key u a) (notifier_key v b)).0 t in
          let eu : bytes_equal u v ≡ true =
            (bytes_equal_iff u v).1 (notifier_key-uuid u v a b e len lb) in
          let ea : bytes_equal a b ≡ true =
            (bytes_equal_iff a b).1 (notifier_key-addr u v a b e len lb) in
          rw (t, eu, ea) refl
      | inr t ↦ elim (Bool-cases (bytes_equal u v)) [
        | inl eu ↦ elim (Bool-cases (bytes_equal a b)) [
          | inl ea ↦
              let same : notifier_key u a ≡ notifier_key v b =
                ap (λ w. notifier_key w a) ((bytes_equal_iff u v).0 eu)
                ∙ ap (notifier_key v) ((bytes_equal_iff a b).0 ea) in
              let yes : bytes_equal (notifier_key u a) (notifier_key v b) ≡ true =
                (bytes_equal_iff (notifier_key u a) (notifier_key v b)).1 same in
              cc
          | inr ea ↦ rw (t, eu, ea) refl
        ]
        | inr eu ↦ rw (t, eu) refl
      ]
    ]

    modes-clear :
        (v b : Text)
        → IsAddress b
        → mode
            (erase gs.notifiers (notifier_key u a))
            (stop_existing gs.made_notifiers (find gs.notifiers (notifier_key u a)))
            (notifier_key v b)
          ≡ (if bytes_equal (notifier_key u a) (notifier_key v b) then none else s v b)
    modes-clear v b lb =
        mode-clear gs.centrals gs.made_centrals gs.notifiers gs.made_notifiers h.subscribed
          (notifier_key u a) (notifier_key v b)
        ∙ ap
            (λ (o : Option Bool).
              if bytes_equal (notifier_key u a) (notifier_key v b) then none else o)
            (h.modes v b lb)

    twice :
        (t c : Bool) (o : Option Bool)
        → (if t then some c else if t then none else o) ≡ (if t then some c else o)
    twice true c o = refl
    twice false c o = refl

    -- The default case of handleCCCDWrite.
    pub enable_cccd-Simulates :
        (c : ℕ) (confirm : Bool)
        → addr_at gs.made_centrals c ≡ some a
        → find gs.centrals a ≡ some c
        → Simulates (enable_cccd gs (notifier_key u a) u c confirm) (put s u a (some confirm))
    unfolding enable_cccd store
    enable_cccd-Simulates c confirm central connected = record {
      connected = h.connected;
      subscribed =
          rw (sym (length-stop_existing gs.made_notifiers (find gs.notifiers (notifier_key u a)))) (
            add-Subscribed gs.centrals gs.made_centrals (erase gs.notifiers (notifier_key u a))
              (stop_existing gs.made_notifiers (find gs.notifiers (notifier_key u a))) cleared made
              a refl len central connected (find-erase_same gs.notifiers (notifier_key u a)));
      modes = λ v b lb.
          subst
            (λ l.
              mode ((notifier_key u a, l) ∷ erase gs.notifiers (notifier_key u a))
                (stop_existing gs.made_notifiers (find gs.notifiers (notifier_key u a))
                  ++ (made ∷ []))
                (notifier_key v b)
              ≡ (if bytes_equal (notifier_key u a) (notifier_key v b)
                  then some confirm
                  else mode (erase gs.notifiers (notifier_key u a))
                      (stop_existing gs.made_notifiers (find gs.notifiers (notifier_key u a)))
                      (notifier_key v b)))
            (length-stop_existing gs.made_notifiers (find gs.notifiers (notifier_key u a)))
            (mode-add gs.centrals gs.made_centrals (erase gs.notifiers (notifier_key u a))
              (stop_existing gs.made_notifiers (find gs.notifiers (notifier_key u a))) cleared made
              (notifier_key u a) (notifier_key v b) refl)
          ∙ ap
              (λ (o : Option Bool).
                if bytes_equal (notifier_key u a) (notifier_key v b) then some confirm else o)
              (modes-clear v b lb)
          ∙ twice (bytes_equal (notifier_key u a) (notifier_key v b)) confirm (s v b)
          ∙ ap (λ t. if t then some confirm else s v b) (key-test v b lb);
    }
      where
        made : ServerNotifier
        made = record {
          c = c;
          char = u;
          char_obj = find gs.char_obj_by_uuid u;
          confirm = confirm;
          done = false;
        }

        cleared :
            Subscribed gs.centrals gs.made_centrals
              (erase gs.notifiers (notifier_key u a))
              (stop_existing gs.made_notifiers (find gs.notifiers (notifier_key u a)))
        cleared =
            clear-Subscribed gs.centrals gs.made_centrals gs.notifiers gs.made_notifiers
              h.subscribed (notifier_key u a)

    -- The first case.
    pub disable_cccd-Simulates : Simulates (disable_cccd gs (notifier_key u a)) (put s u a none)
    unfolding disable_cccd stop_existing
    disable_cccd-Simulates = elim (Option-cases (find gs.notifiers (notifier_key u a))) [
      | inl e ↦
          rw (disable_cccd, e)
            (record {
              connected = h.connected;
              subscribed = h.subscribed;
              modes = λ v b lb. h.modes v b lb ∙ absent_one v b lb e;
            })
      | inr (p, e) ↦
          rw (disable_cccd, e)
            (record {
              connected = h.connected;
              subscribed = cleared p e;
              modes = λ v b lb. cleared_modes p e v b lb;
            })
    ]
      where
        absent_one :
            (v b : Text)
            → IsAddress b
            → find gs.notifiers (notifier_key u a) ≡ none
            → s v b ≡ put s u a none v b
        absent_one v b lb e =
            elim (Bool-cases (bytes_equal (notifier_key u a) (notifier_key v b))) [
              | inl t ↦
                  let same = (bytes_equal_iff (notifier_key u a) (notifier_key v b)).0 t in
                  rw (sym (key-test v b lb)) (
                    rw t (
                      sym (h.modes v b lb)
                      ∙ mode-none gs.notifiers gs.made_notifiers (notifier_key v b)
                          (ap (find gs.notifiers) (sym same) ∙ e)))
              | inr t ↦ rw (sym (key-test v b lb)) (rw t refl)
            ]

        cleared :
            (p : ℕ)
            → find gs.notifiers (notifier_key u a) ≡ some p
            → Subscribed gs.centrals gs.made_centrals
                (erase gs.notifiers (notifier_key u a))
                (update gs.made_notifiers p stop)
        cleared p e =
            let c =
              clear-Subscribed gs.centrals gs.made_centrals gs.notifiers gs.made_notifiers
                h.subscribed (notifier_key u a) in
            rw e at c

        cleared_modes :
            (p : ℕ)
            → find gs.notifiers (notifier_key u a) ≡ some p
            → (v b : Text) → IsAddress b
            → mode
                (erase gs.notifiers (notifier_key u a))
                (update gs.made_notifiers p stop)
                (notifier_key v b)
              ≡ put s u a none v b
        cleared_modes p e v b lb =
            let c =
              modes-clear v b lb ∙ ap (λ (t : Bool). if t then none else s v b) (key-test v b lb) in
            rw e at c
