-- ===== src/Client/Subscriptions.antt =====
-- peripheral.go and peripheral_linux.go: the subscriptions of a client and the PDUs that arrive.
use gatt.Prelude.{
  ℕ, ◌+◌, ◌*◌, List, [], ◌∷◌, ◌++◌, Option, none, some, ◌||◌, Run, ok, panic, ◌>>=◌, put_uint16,
  ◌==◌, if◌then◌else◌,
}
use gatt.Att.Op
use gatt.Client.Matching.{finish}
use gatt.Client.Reading.{ClientError, not_sent, no_cccd, att_error, tail_of}

-- A callback of the application; the library only keeps it and calls it.
abbrev pub Callback : Type 0
Callback = ℕ

-- The map of callbacks by handle: the first entry for a handle counts.
abbrev pub Subscriber : Type 0
Subscriber = List (ℕ × Callback)

unfoldable pub subscribe : Subscriber → ℕ → Callback → Subscriber
subscribe s h f = (h, f) ∷ s

unfoldable pub unsubscribe : Subscriber → ℕ → Subscriber
unsubscribe [] h = []
unsubscribe ((j, f) ∷ s) h = let rest = unsubscribe s h in if j == h then rest else (j, f) ∷ rest

-- fn
unfoldable pub callback_of : Subscriber → ℕ → Option Callback
callback_of [] h = none
callback_of ((j, f) ∷ s) h = if j == h then some f else callback_of s h

-- What the read loop does with a PDU: it is a response for the request loop, or it is a notification
-- or indication, with the call of a callback, if there is one, and the PDUs that are written back.
pub data Incoming : Type 0 where
  response : List ℕ → Incoming
  notified : Option (Callback × List ℕ) → List (List ℕ) → Incoming

abbrev call_of : Option Callback → List ℕ → Option (Callback × List ℕ)
call_of none v = none
call_of (some f) v = some (f, v)

-- A PDU behind its opcode; a short one makes `b[1:3]` panic.
abbrev notification : Subscriber → ℕ → List ℕ → Run Incoming
notification s op [] = panic
notification s op (h0 ∷ []) = panic
notification s op (h0 ∷ h1 ∷ v) = ok (
    notified (call_of (callback_of s (h0 + h1 * 256)) v)
      (if op == Op.handle_ind then (Op.handle_cnf ∷ []) ∷ [] else []))

unfoldable pub incoming : Subscriber → List ℕ → Run Incoming
incoming s [] = panic
incoming s (op ∷ b) =
    if op == Op.handle_notify || op == Op.handle_ind
    then notification s op b
    else ok (response (op ∷ b))

module _ {S : Type 0} (send_req : S → List ℕ → Run (Option (List ℕ) × S)) where
  -- setNotifyValue with the flag of SetNotifyValue or SetIndicateValue. The callback is put in before
  -- the request, and taken out, where there is none, after the response.
  unfoldable pub set_notify_value :
      S
      → Subscriber
      → Option ℕ
      → ℕ
      → ℕ
      → Option Callback
      → Run (Option ClientError × Subscriber × S)
  set_notify_value s subs none vh flag f = ok (some no_cccd, subs, s)
  set_notify_value s subs (some cccd) vh flag f = do
    let ccc : ℕ = elim f [ none ↦ 0 | some k ↦ flag ]
    let subs' : Subscriber = elim f [ none ↦ subs | some k ↦ subscribe subs vh k ]
    (r, s') ← send_req s (Op.write_req ∷ put_uint16 cccd ++ put_uint16 ccc)
    elim r [
      | none ↦ ok (some not_sent, subs', s')
      | some b ↦ do
        (done, err) ← finish Op.write_req cccd b
        tail ← tail_of b
        ok (att_error err, elim f [ none ↦ unsubscribe subs' vh | some k ↦ subs' ], s')
    ]
