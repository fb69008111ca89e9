-- ===== src/Android/GattServer/Lifecycle/Stops.antt =====
-- What the end of the server stops and closes.
use gatt.Prelude.{
  ℕ, ◌≡◌, ◌≢◌, refl, ap, ◌∙◌, List, [], ◌∷◌, true, false, none, some, get_elem?, bytes_equal,
  Bool-cases, inl, inr,
}
use gatt.Prelude.{update}
use gatt.Android.Maps.{Text, find}
use gatt.Android.GattServer.{
  Central, ServerNotifier, GattServer, NotifyCalls, central_stopped, write, stop, stop_entries,
  close_each, close_central,
}
use gatt.Android.GattServer.Connected.{update_cases, same, other}
use gatt.Android.GattServer.Subscribed.{running-update}

pub write-stopped :
    (calls : NotifyCalls) (gs : GattServer) (n : ServerNotifier) (content : List ℕ)
    → n.done ≡ true
    → write calls gs n content ≡ (central_stopped, none)
unfolding write
write-stopped calls gs n content e = rw e refl

pub entry_apart :
    (key : Text) (q p : ℕ) (m : List (Text × ℕ)) (k : Text)
    → q ≢ p
    → find m k ≢ some p
    → find ((key, q) ∷ m) k ≢ some p
unfolding find
entry_apart key q p m k d f e = elim (Bool-cases (bytes_equal key k)) [
  | inl t ↦ let one : some q ≡ some p = rw t at e in let q_p : q ≡ p = cc in d q_p
  | inr t ↦ f (rw t at e)
]

pub running-stop_entries :
    (m : List (Text × ℕ)) (made : List ServerNotifier) (p : ℕ) (n : ServerNotifier)
    → get_elem? (stop_entries m made) p ≡ some n
    → n.done ≡ false
    → (get_elem? made p ≡ some n) × ((k : Text) → find m k ≢ some p)
unfolding stop_entries find
running-stop_entries [] made p n e r = (e, λ k f. cc)
running-stop_entries ((key, q) ∷ m) made p n e r =
    let rest = running-stop_entries m (update made q stop) p n e r in
    let first = running-update made q p n rest.0 r in
    (first.1, λ k. entry_apart key q p m k first.0 (rest.1 k))

pub open-close_each :
    (m : List (Text × ℕ)) (cs : List Central) (q : ℕ) (c : Central) (obj : ℕ)
    → get_elem? (close_each m cs) q ≡ some c
    → c.bt_dev ≡ some obj
    → (get_elem? cs q ≡ some c) × ((k : Text) → find m k ≢ some q)
unfolding close_each find close_central
open-close_each [] cs q c obj e d = (e, λ k f. cc)
open-close_each ((key, p) ∷ m) cs q c obj e d =
    let rest = open-close_each m (update cs p close_central) q c obj e d in
    elim (update_cases cs p close_central q c rest.0) [
      | same h k s new ↦ let gone : none ≡ some obj = ap (λ (z : Central). z.bt_dev) new ∙ d in cc
      | other h s ↦ (s, λ k. entry_apart key p q m k h (rest.1 k))
    ]
