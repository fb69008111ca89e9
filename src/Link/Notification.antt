-- ===== src/Link/Notification.antt =====
-- A notification of the server reaches the callback of the client.
use gatt.Prelude.{
  ℕ, ◌-◌, ◌≤◌, ◌<◌, ◌≡◌, refl, List, [], ◌∷◌, ◌++◌, some, arith, ok, ◌>>=◌, put_uint16, take,
  take_all, ==_self,
}
use gatt.Att.Op
use gatt.Profile.{Descriptor, Characteristic}
use gatt.AttrTable.{Attr, descriptor}
use gatt.L2capWriter.{new_writer, bytes, write_uint16_fit}
use gatt.L2capWriter.Writes.{write_fit-idle, write_byte_fit-idle}
use gatt.Central.State.{Central}
use gatt.Central.Write.{send_notification, notification_pdu}
use gatt.Central.Discovery.Ranges.{bytes_of_uint16}
use gatt.Client.Subscriptions.{Subscriber, Callback, incoming, notified, subscribe, callback_of}

send_notification-pdu :
    (c : Central) (a : Attr) (d : Descriptor) (char : Characteristic) (v : List ℕ)
    → a.pvt ≡ descriptor d char
    → 3 ≤ c.mtu
    → send_notification c a v ≡ ok (Op.handle_notify ∷ put_uint16 char.vh ++ take (c.mtu - 3) v)
unfolding send_notification notification_pdu new_writer bytes write_uint16_fit
send_notification-pdu c a d char v e room =
    let two : take (c.mtu - 1) (put_uint16 char.vh) ≡ put_uint16 char.vh =
      take_all (c.mtu - 1) (put_uint16 char.vh) (omega arith) in
    rw e (
      rw (write_byte_fit-idle c.mtu [] Op.handle_notify (omega arith)) (
        rw (write_fit-idle c.mtu (Op.handle_notify ∷ []) (put_uint16 char.vh) (omega arith)) (
          rw two (
            rw (write_fit-idle c.mtu (Op.handle_notify ∷ put_uint16 char.vh) v (omega arith))
              refl))))

-- What the server sends to notify a value of a characteristic reaches the callback that the client
-- has subscribed last to the handle of this value, with the value, cut to three bytes less than the
-- MTU, and no PDU is written back. The MTU is at least 3 and the handle has 16 bits.
pub incoming-send_notification :
    (c : Central) (a : Attr) (d : Descriptor) (char : Characteristic) (v : List ℕ)
    (subs : Subscriber) (f : Callback)
    → a.pvt ≡ descriptor d char
    → 3 ≤ c.mtu
    → char.vh < 65536
    → (send_notification c a v >>= λ pdu. incoming (subscribe subs char.vh f) pdu)
      ≡ ok (notified (some (f, take (c.mtu - 3) v)) [])
unfolding incoming subscribe callback_of
incoming-send_notification c a d char v subs f e room small =
    rw (send_notification-pdu c a d char v e room)
      (rw (bytes_of_uint16 char.vh small) (rw (==_self char.vh) refl))
