-- ===== src/Central/Write/Within.antt =====
-- central_linux.go: the responses to the writes and to the MTU exchange keep within the MTU.
use gatt.Prelude.{
  ℕ, ◌≤◌, ◌≡◌, refl, List, Option, none, some, not, ◌&&◌, Run, ok, panic, ◌>>=◌, arith, Slice,
  slice_bytes, slice_from, uint16, bit_and, Ensures, Ensures-bind, Ensures-any, length, ltb, leb,
  ◌==◌, if◌then◌else◌, Option-cases, inl, inr,
}
use gatt.Uuid.{equal}
use gatt.L2capWriter.Within.{if-Ensures}
use gatt.Att.{att_error_resp, attr_client_characteristic_config_uuid, gatt_ccc_flags}
use gatt.Att.Op
use gatt.Att.ErrorCode
use gatt.Profile.{Descriptor, Characteristic, char_write, char_write_nr}
use gatt.AttrTable.{Attr, Pvt, service, characteristic, descriptor, at_handle}
use gatt.Central.State.{Central, security_low, mtu_minus, find_notifier, start_notify, stop_notify}
use gatt.Central.Discovery.Within.{att_error_resp-Short}
use gatt.Central.Read.Within.{MaybeShort, if-MaybeShort}
use gatt.Central.Write.{
  handle_mtu, pvt_write, regular_write, ccc_write, write_refusal, handle_write,
}

-- The response, if there is one, is within the MTU that the connection then has, which is at least 23.
pub record Fitting (p : Option (List ℕ) × Central) : Type 0 where
  pub short : MaybeShort p.1.mtu p.0
  pub least : 23 ≤ p.1.mtu

stop_notify-mtu : (c : Central) (a : Attr) → (stop_notify c a).mtu ≡ c.mtu
unfolding stop_notify
stop_notify-mtu c a = elim (Option-cases (find_notifier c.notifiers a.h)) [
  | inl e ↦ rw (e, stop_notify) refl
  | inr (p, e) ↦ rw (e, stop_notify) refl
]

option-Ensures {ℓ κ ι} :
    {A : Type ℓ} {B : Type κ} (P : B → Type ι) (o : Option A) (x : Run B) (f : A → Run B)
    → Ensures P x
    → ((a : A) → Ensures P (f a))
    → Ensures P (elim o [ some a ↦ f a | none ↦ x ])
option-Ensures P none x f g h = g
option-Ensures P (some a) x f g h = h a

pvt-Ensures {κ ι} :
    {B : Type κ} (P : B → Type ι) (v : Pvt) (f : Descriptor → Characteristic → Run B)
    → ((d : Descriptor) (c : Characteristic) → Ensures P (f d c))
    → Ensures P (elim v [ descriptor d c ↦ f d c | service s ↦ panic | characteristic c ↦ panic ])
pvt-Ensures P (service s) f h = tt
pvt-Ensures P (characteristic c) f h = tt
pvt-Ensures P (descriptor d c) f h = h d c

start_notify-mtu :
    (c : Central) (a : Attr) (n : ℕ) → Ensures (λ c'. c'.mtu ≡ c.mtu) (start_notify c a n)
unfolding start_notify
start_notify-mtu c a n =
    option-Ensures (λ c'. c'.mtu ≡ c.mtu) (find_notifier c.notifiers a.h) _ _
      (pvt-Ensures (λ c'. c'.mtu ≡ c.mtu) a.pvt _
        (λ d char.
          option-Ensures (λ c'. c'.mtu ≡ c.mtu) char.notify_handler _ _ tt (λ serve. refl)))
      (λ p. refl)

module _ (c : Central) (least : 23 ≤ c.mtu) where
  pub error-Fitting : (op h s : ℕ) → Fitting (some (att_error_resp op h s), c)
  error-Fitting op h s = record {
    short = att_error_resp-Short c.mtu op h s (omega arith);
    least = least;
  }

  pub handle_mtu-Fitting :
      (b : Slice) → Ensures Fitting (handle_mtu c b >>= λ r. ok (some r.0, r.1))
  unfolding handle_mtu
  handle_mtu-Fitting b =
      Ensures-bind {P = λ r. Fitting (some r.0, r.1)} Fitting (handle_mtu c b) _
        (Ensures-bind {P = λ _. Unit} (λ r. Fitting (some r.0, r.1)) (slice_bytes b 0 2) _
          (Ensures-any (slice_bytes b 0 2))
          (λ p _.
            Ensures-bind {P = λ _. Unit} (λ r. Fitting (some r.0, r.1)) (uint16 p) _
              (Ensures-any (uint16 p))
              (λ asked _.
                let low = if ltb asked 23 then 23 else asked in
                let mtu = if leb 256 low then 256 else low in
                let enough : 23 ≤ mtu = ground arith in
                record { short = omega arith; least = enough })))
        (λ r k. k)

  regular_write-Fitting :
      (t h : ℕ) (a : Attr) (v : List ℕ) → Ensures Fitting (regular_write c t h a v)
  unfolding regular_write
  regular_write-Fitting t h a v =
      Ensures-bind {P = λ _. Unit} Fitting (pvt_write a.pvt v) _ (Ensures-any (pvt_write a.pvt v))
        (λ result _. record {
          short = if-MaybeShort c.mtu (t == Op.write_cmd) _ _ tt (
              if-MaybeShort c.mtu (result == ErrorCode.success) _ _ (omega arith)
                (error-Fitting t h result).short);
          least = least;
        })

  ccc_write-Fitting : (t h : ℕ) (a : Attr) (v : List ℕ) → Ensures Fitting (ccc_write c t h a v)
  unfolding ccc_write
  ccc_write-Fitting t h a v =
      if-Ensures Fitting (not (length v == 2)) _ _ (λ e. error-Fitting t h _)
        (λ e. Ensures-bind {P = λ _. Unit} Fitting (uint16 v) _ (Ensures-any (uint16 v)) (λ ccc _.
          Ensures-bind {P = λ c'. c'.mtu ≡ c.mtu} Fitting
            (if bit_and ccc gatt_ccc_flags == 0
              then ok (stop_notify c a)
              else start_notify c a (mtu_minus c 3))
            _
            (if-Ensures (λ c'. c'.mtu ≡ c.mtu) (bit_and ccc gatt_ccc_flags == 0) _ _
              (λ f. stop_notify-mtu c a) (λ f. start_notify-mtu c a (mtu_minus c 3)))
            (λ c' same. record {
              short = if-MaybeShort c'.mtu (t == Op.write_cmd) _ _ tt (omega arith);
              least = omega arith;
            })))

  pub handle_write-Fitting : (t : ℕ) (b : Slice) → Ensures Fitting (handle_write c t b)
  unfolding handle_write
  handle_write-Fitting t b =
      Ensures-bind {P = λ _. Unit} Fitting (slice_bytes b 0 2) _ (Ensures-any (slice_bytes b 0 2))
        (λ p _. Ensures-bind {P = λ _. Unit} Fitting (uint16 p) _ (Ensures-any (uint16 p)) (λ h _.
          Ensures-bind {P = λ _. Unit} Fitting (slice_from b 2) _ (Ensures-any (slice_from b 2))
            (λ v _.
              Ensures-bind {P = λ _. Unit} Fitting (at_handle c.attrs h) _
                (Ensures-any (at_handle c.attrs h))
                (λ o _. option-Ensures Fitting o _ _ (error-Fitting t h _) (λ a.
                  refused h a (write_refusal c t h a) v.elems (write_refusal-MaybeShort h a))))))
    where
      write_refusal-MaybeShort : (h : ℕ) (a : Attr) → MaybeShort c.mtu (write_refusal c t h a)
      write_refusal-MaybeShort h a =
          let flag = if t == Op.write_cmd then char_write_nr else char_write in
          if-MaybeShort c.mtu (bit_and a.props flag == 0)
            (some (att_error_resp t h ErrorCode.write_not_perm))
            (if bit_and a.secure flag == 0 && ltb security_low c.security
              then some (att_error_resp t h ErrorCode.authentication)
              else none)
            (error-Fitting t h ErrorCode.write_not_perm).short
            (if-MaybeShort c.mtu (bit_and a.secure flag == 0 && ltb security_low c.security)
              (some (att_error_resp t h ErrorCode.authentication)) none
              (error-Fitting t h ErrorCode.authentication).short tt)

      refused :
          (h : ℕ) (a : Attr) (o : Option (List ℕ)) (v : List ℕ)
          → MaybeShort c.mtu o
          → Ensures Fitting (elim o [
            | some r ↦ ok (some r, c)
            | none ↦
                if equal a.typ attr_client_characteristic_config_uuid
                then ccc_write c t h a v
                else regular_write c t h a v
          ])
      refused h a (some r) v k = record { short = k; least = least }
      refused h a none v k =
          if-Ensures Fitting (equal a.typ attr_client_characteristic_config_uuid) _ _
            (λ e. ccc_write-Fitting t h a v) (λ e. regular_write-Fitting t h a v)
