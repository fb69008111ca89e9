-- ===== src/Central/Write/Keeps.antt =====
-- Writes and the MTU exchange keep the map of notifiers and the running notifiers together.
use gatt.Prelude.{
  ℕ, List, ◌≡◌, refl, sym, ap, ◌∙◌, get_elem?, true, Option, none, some, Run, ok, Slice,
  slice_bytes, slice_from, uint16, length, ◌==◌, bit_and, if◌then◌else◌, Bool-cases, inl, inr,
  Ensures, Ensures-bind, Ensures-any,
}
use gatt.Uuid.{equal}
use gatt.Att.{att_error_resp, attr_client_characteristic_config_uuid, gatt_ccc_flags}
use gatt.Att.ErrorCode
use gatt.AttrTable.{Attr, at_handle}
use gatt.Central.State.{Central, Notifier, find_notifier, mtu_minus, start_notify, stop_notify}
use gatt.Central.State.Live.{Live, IsListed, start_notify-Live, stop_notify-Live, stop_notify-gone}
use gatt.Central.Write.{
  handle_mtu, handle_write, ccc_write, regular_write, pvt_write, notifier_write, write_refusal,
}

-- A response and the state behind it, with the invariant.
abbrev pub LeavesLive : Option (List ℕ) × Central → Type 0
LeavesLive r = Live r.1

module _ (c : Central) (l : Live c) where
  ccc_write-Live :
      (req_type h : ℕ) (a : Attr) (v : List ℕ) → Ensures LeavesLive (ccc_write c req_type h a v)
  unfolding ccc_write
  ccc_write-Live req_type h a v = elim (Bool-cases (length v == 2)) [
    | inr wrong ↦ rw (ccc_write, wrong) l
    | inl two ↦
        rw (ccc_write, two)
          (Ensures-bind LeavesLive (uint16 v) _ (Ensures-any (uint16 v))
            (λ ccc _. Ensures-bind {P = Live} LeavesLive (change ccc) _ (changed ccc) (λ c' k. k)))
  ]
    where
      change : ℕ → Run Central
      change ccc =
          if bit_and ccc gatt_ccc_flags == 0
          then ok (stop_notify c a)
          else start_notify c a (mtu_minus c 3)

      changed : (ccc : ℕ) → Ensures Live (change ccc)
      changed ccc = elim (Bool-cases (bit_and ccc gatt_ccc_flags == 0)) [
        | inl off ↦ rw off (stop_notify-Live c a l)
        | inr on ↦ rw on (start_notify-Live c a (mtu_minus c 3) l)
      ]

  regular_write-Live :
      (req_type h : ℕ) (a : Attr) (v : List ℕ) → Ensures LeavesLive (regular_write c req_type h a v)
  unfolding regular_write
  regular_write-Live req_type h a v =
      Ensures-bind LeavesLive (pvt_write a.pvt v) _ (Ensures-any (pvt_write a.pvt v)) (λ _ _. l)

  found_write-Live :
      (req_type h : ℕ) (a : Attr) (v : List ℕ) (o : Option (List ℕ))
      → Ensures LeavesLive (elim o [
        | some r ↦ ok (some r, c)
        | none ↦
            if equal a.typ attr_client_characteristic_config_uuid
            then ccc_write c req_type h a v
            else regular_write c req_type h a v
      ])
  found_write-Live req_type h a v (some r) = l
  found_write-Live req_type h a v none =
      elim (Bool-cases (equal a.typ attr_client_characteristic_config_uuid)) [
        | inl ccc ↦ rw ccc (ccc_write-Live req_type h a v)
        | inr other ↦ rw other (regular_write-Live req_type h a v)
      ]

  pub handle_write-Live :
      (req_type : ℕ) (b : Slice) → Ensures LeavesLive (handle_write c req_type b)
  unfolding handle_write
  handle_write-Live req_type b =
      Ensures-bind LeavesLive (slice_bytes b 0 2) _ (Ensures-any (slice_bytes b 0 2)) (λ p _.
        Ensures-bind LeavesLive (uint16 p) _ (Ensures-any (uint16 p)) (λ h _.
          Ensures-bind LeavesLive (slice_from b 2) _ (Ensures-any (slice_from b 2)) (λ v _.
            Ensures-bind LeavesLive (at_handle c.attrs h) _ (Ensures-any (at_handle c.attrs h))
              (λ o _. by_handle h v o))))
    where
      by_handle :
          (h : ℕ) (v : Slice) (o : Option Attr)
          → Ensures LeavesLive (elim o [
            | none ↦ ok (some (att_error_resp req_type h ErrorCode.invalid_handle), c)
            | some a ↦ elim (write_refusal c req_type h a) [
              | some r ↦ ok (some r, c)
              | none ↦
                  if equal a.typ attr_client_characteristic_config_uuid
                  then ccc_write c req_type h a v.elems
                  else regular_write c req_type h a v.elems
            ]
          ])
      by_handle h v none = l
      by_handle h v (some a) = found_write-Live req_type h a v.elems (write_refusal c req_type h a)

  pub handle_mtu-Live : (b : Slice) → Ensures (λ r. Live r.1) (handle_mtu c b)
  unfolding handle_mtu
  handle_mtu-Live b =
      Ensures-bind (λ r. Live r.1) (slice_bytes b 0 2) _ (Ensures-any (slice_bytes b 0 2))
        (λ p _.
          Ensures-bind (λ r. Live r.1) (uint16 p) _ (Ensures-any (uint16 p))
            (λ asked _. record { listed = λ h p e. kept (l.listed h p e); tracked = l.tracked }))
    where
      kept : {mtu h p : ℕ} → IsListed c h p → IsListed (record c { mtu = mtu }) h p
      kept k = record {
        n = k.n;
        stored = k.stored;
        same_handle = k.same_handle;
        running = k.running;
      }

stopped_done :
    (c : Central) (a : Attr) (p : ℕ) (n : Notifier)
    → Live c
    → get_elem? (stop_notify c a).created p ≡ some n
    → n.a.h ≡ a.h
    → find_notifier (stop_notify c a).notifiers a.h ≡ none
    → n.done ≡ true
stopped_done c a p n l stored same gone = elim (Bool-cases n.done) [
  | inl done ↦ done
  | inr running ↦
      let there = (stop_notify-Live c a l).tracked p n stored running in
      let clash : none ≡ some p =
        sym gone ∙ ap (find_notifier (stop_notify c a).notifiers) (sym same) ∙ there in
      cc
]

-- After stopNotify, a write to any notifier that the connection has made for this handle sends
-- nothing: it is the error of a stopped notifier, if the map of notifiers and the running notifiers
-- agreed before.
pub stop_notify-notifier_write :
    (c : Central) (a : Attr) (p : ℕ) (n : Notifier) (v : List ℕ)
    → Live c
    → get_elem? (stop_notify c a).created p ≡ some n
    → n.a.h ≡ a.h
    → notifier_write (stop_notify c a) p v ≡ ok none
unfolding notifier_write
stop_notify-notifier_write c a p n v l stored same =
    let done = stopped_done c a p n l stored same (stop_notify-gone c a) in
    rw (notifier_write, stored) (rw done refl)
