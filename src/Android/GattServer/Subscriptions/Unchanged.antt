-- ===== src/Android/GattServer/Subscriptions/Unchanged.antt =====
-- What the handlers leave of the server's index.
use gatt.Prelude.{
  ℕ, ◌≡◌, refl, Bool, none, some, get_elem?, ◌==◌, Bool-cases, Option-cases, inl, inr,
}
use gatt.Android.Maps.{Text, find}
use gatt.Android.GattServer.{
  GattServer, stop_for_address, addr_at, disconnect_central, remember_connected_central,
}
use gatt.Android.GattServer.Characteristics.{addr_of}
use gatt.Android.GattServer.Descriptors.{enable_cccd, disable_cccd}

pub remember_connected_central-chars :
    (gs : GattServer) (a : Text) (c : ℕ)
    → (remember_connected_central gs a c).char_by_uuid ≡ gs.char_by_uuid
unfolding remember_connected_central stop_for_address
remember_connected_central-chars gs a c = elim (Option-cases (find gs.centrals a)) [
  | inl e ↦ rw (remember_connected_central, e) refl
  | inr (p, e) ↦ elim (Bool-cases (p == c)) [
    | inl t ↦ rw (remember_connected_central, e, t) refl
    | inr t ↦ rw (remember_connected_central, e, t) refl
  ]
]

pub disconnect_central-chars :
    (gs : GattServer) (a : Text) → (disconnect_central gs a).0.char_by_uuid ≡ gs.char_by_uuid
unfolding disconnect_central stop_for_address
disconnect_central-chars gs a = elim (Option-cases (find gs.centrals a)) [
  | inl e ↦ rw (disconnect_central, e) refl
  | inr (p, e) ↦ rw (disconnect_central, e) refl
]

pub disable_cccd-chars :
    (gs : GattServer) (key : Text) → (disable_cccd gs key).char_by_uuid ≡ gs.char_by_uuid
unfolding disable_cccd
disable_cccd-chars gs key = elim (Option-cases (find gs.notifiers key)) [
  | inl e ↦ rw (disable_cccd, e) refl
  | inr (p, e) ↦ rw (disable_cccd, e) refl
]

pub enable_cccd-chars :
    (gs : GattServer) (key u : Text) (c : ℕ) (confirm : Bool)
    → (enable_cccd gs key u c confirm).char_by_uuid ≡ gs.char_by_uuid
unfolding enable_cccd
enable_cccd-chars gs key u c confirm = refl

pub addr_of-stored :
    (gs : GattServer) (c : ℕ) (a : Text) → addr_at gs.made_centrals c ≡ some a → addr_of gs c ≡ a
unfolding addr_at addr_of
addr_of-stored gs c a e = elim (Option-cases (get_elem? gs.made_centrals c)) [
  | inl n ↦ let clash : none ≡ some a = rw (addr_at, n) at e in cc
  | inr (k, n) ↦
      let one : some k.addr ≡ some a = rw (addr_at, n) at e in
      rw (addr_of, n) (let same : k.addr ≡ a = cc in same)
]
