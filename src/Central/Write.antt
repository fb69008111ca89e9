-- ===== src/Central/Write.antt =====
-- central_linux.go: the requests that change the connection's state, and the notifications.
pub mod Keeps
pub mod Within
use gatt.Prelude.{
  ℕ, List, [], ◌∷◌, Option, none, some, not, ◌&&◌, Run, ok, panic, ◌>>=◌, Slice, slice_bytes,
  slice_from, uint16, put_uint16, length, get_elem?, ◌==◌, ltb, leb, bit_and, if◌then◌else◌,
  from_option,
}
use gatt.Uuid.{equal}
use gatt.L2capWriter.{new_writer, write_fit, write_byte_fit, write_uint16_fit, bytes}
use gatt.Att.{att_error_resp, attr_client_characteristic_config_uuid, gatt_ccc_flags}
use gatt.Att.Op
use gatt.Att.ErrorCode
use gatt.Profile.{WriteHandler, char_write, char_write_nr}
use gatt.AttrTable.{Attr, Pvt, service, characteristic, descriptor, at_handle}
use gatt.Central.State.{Central, security_low, mtu_minus, start_notify, stop_notify}

unfoldable pub handle_mtu : Central → Slice → Run (List ℕ × Central)
handle_mtu c b = do
  p ← slice_bytes b 0 2
  asked ← uint16 p
  let low = if ltb asked 23 then 23 else asked
  let mtu = if leb 256 low then 256 else low
  ok (Op.mtu_resp ∷ put_uint16 mtu, record c { mtu = mtu })

serve_write : Option WriteHandler → List ℕ → Run ℕ
serve_write none v = panic
serve_write (some f) v = ok (f v)

-- Both branches of the code's `if` ask for a *Characteristic, so a descriptor answers 0.
pvt_write : Pvt → List ℕ → Run ℕ
pvt_write (service s) v = ok 0
pvt_write (characteristic c) v = serve_write c.write_handler v
pvt_write (descriptor d c) v = ok 0

-- A write that is not of a configuration descriptor.
regular_write : Central → ℕ → ℕ → Attr → List ℕ → Run (Option (List ℕ) × Central)
regular_write c req_type h a v = do
  result ← pvt_write a.pvt v
  ok (
    if req_type == Op.write_cmd
        then none
        else (if result == ErrorCode.success
            then some (Op.write_resp ∷ [])
            else some (att_error_resp req_type h result)),
    c,
  )

ccc_write : Central → ℕ → ℕ → Attr → List ℕ → Run (Option (List ℕ) × Central)
ccc_write c req_type h a v =
    if not (length v == 2)
    then ok (some (att_error_resp req_type h ErrorCode.inval_attr_value_len), c)
    else do
      ccc ← uint16 v
      c' ←
          (if bit_and ccc gatt_ccc_flags == 0
            then ok (stop_notify c a)
            else start_notify c a (mtu_minus c 3))
      ok (if req_type == Op.write_cmd then none else some (Op.write_resp ∷ []), c')

-- The checks of a write, in the order of the code. The last one is `a.secure&charFlag == 0`.
abbrev pub write_refusal : Central → ℕ → ℕ → Attr → Option (List ℕ)
write_refusal c req_type h a =
    let flag = if req_type == Op.write_cmd then char_write_nr else char_write in
    if bit_and a.props flag == 0
    then some (att_error_resp req_type h ErrorCode.write_not_perm)
    else (if bit_and a.secure flag == 0 && ltb security_low c.security
        then some (att_error_resp req_type h ErrorCode.authentication)
        else none)

-- `none` is a nil response: nothing is sent.
pub handle_write : Central → ℕ → Slice → Run (Option (List ℕ) × Central)
handle_write c req_type b = do
  p ← slice_bytes b 0 2
  h ← uint16 p
  v ← slice_from b 2
  found ← at_handle c.attrs h
  elim found [
    | none ↦ ok (some (att_error_resp req_type h ErrorCode.invalid_handle), c)
    | some a ↦ elim (write_refusal c req_type h a) [
      | some r ↦ ok (some r, c)
      | none ↦
          if equal a.typ attr_client_characteristic_config_uuid
          then ccc_write c req_type h a v.elems
          else regular_write c req_type h a v.elems
    ]
  ]

-- sendNotification: the PDU that goes to the connection.
unfoldable pub notification_pdu : Central → Pvt → List ℕ → Run (List ℕ)
notification_pdu c (service s) v = panic
notification_pdu c (characteristic char) v = panic
notification_pdu c (descriptor d char) v = do
  (_, w) ← write_byte_fit (new_writer c.mtu) Op.handle_notify
  (_, w1) ← write_uint16_fit w char.vh
  (_, w2) ← write_fit w1 v
  bytes w2

unfoldable pub send_notification : Central → Attr → List ℕ → Run (List ℕ)
send_notification c a v = notification_pdu c a.pvt v

-- notifier.Write on the notifier at a position; `none` is the error of a stopped notifier.
pub notifier_write : Central → ℕ → List ℕ → Run (Option (List ℕ))
notifier_write c p v = do
  n ← from_option (get_elem? c.created p)
  if n.done then ok none else do pdu ← send_notification c n.a v; ok (some pdu)
