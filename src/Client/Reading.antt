-- ===== src/Client/Reading.antt =====
-- peripheral_linux.go: reading and writing values and the MTU exchange. `send_req` stands for
-- sendReq: it sends a PDU and brings the response, or `none` where the context ends first.
use gatt.Prelude.{
  ℕ, zero, suc, ◌+◌, ◌%◌, List, [], ◌∷◌, ◌++◌, Option, none, some, Run, ok, panic, ◌>>=◌,
  put_uint16, uint16, length, ltb, ◌==◌, if◌then◌else◌,
}
use gatt.Att.Op
use gatt.Client.Matching.{finish}

pub data ClientError : Type 0 where
  not_sent : ClientError
  invalid_length : ClientError
  no_cccd : ClientError
  att : ℕ → ClientError

abbrev pub att_error : Option ℕ → Option ClientError
att_error none = none
att_error (some code) = some (att code)

-- `b[1:]`
abbrev pub tail_of : List ℕ → Run (List ℕ)
tail_of [] = panic
tail_of (x ∷ b) = ok b

-- The result of a read: the bytes, and the error beside them.
pub record Reply : Type 0 where
  pub value : List ℕ
  pub error : Option ClientError

-- A long read that has not ended within the fuel is `running`.
pub data LongReply : Type 0 where
  finished : Reply → LongReply
  running : LongReply

module _ {S : Type 0} (send_req : S → List ℕ → Run (Option (List ℕ) × S)) where
  -- ReadCharacteristic and ReadDescriptor, by the handle of the value.
  unfoldable pub read_handle : S → ℕ → Run (Reply × S)
  read_handle s h = do
    (r, s') ← send_req s (Op.read_req ∷ put_uint16 h)
    elim r [
      | none ↦ ok (record { value = []; error = some not_sent }, s')
      | some b ↦ do
        (done, err) ← finish Op.read_req h b
        v ← tail_of b
        ok (record { value = v; error = att_error err }, s')
    ]

  -- The loop of ReadLongCharacteristic, from the bytes `buf` read so far and the offset `off`, a
  -- uint16. `len(b) < int(p.mtu)-1` is `len(b) + 1 < p.mtu`.
  unfoldable pub read_blobs : ℕ → ℕ → S → ℕ → List ℕ → ℕ → Run (LongReply × S)
  read_blobs zero mtu s vh buf off = ok (running, s)
  read_blobs (suc fuel) mtu s vh buf off = do
    (r, s') ← send_req s (Op.read_blob_req ∷ put_uint16 vh ++ put_uint16 off)
    elim r [
      | none ↦ ok (finished (record { value = []; error = some not_sent }), s')
      | some p ↦ do
        (done, err) ← finish Op.read_blob_req vh p
        let end : Reply = record { value = buf; error = att_error err }
        if done then ok (finished end, s') else do
          b ← tail_of p
          let more : Reply = record { value = buf ++ b; error = att_error err }
          let next = read_blobs fuel mtu s' vh (buf ++ b) ((off + length b) % 65536)
          if length b == 0
              then ok (finished end, s')
              else if ltb (length b + 1) mtu
              then ok (finished more, s')
              else next
    ]

  -- ReadLongCharacteristic
  unfoldable pub read_long : ℕ → ℕ → S → ℕ → Run (LongReply × S)
  read_long fuel mtu s vh = do
    (first, s') ← read_handle s vh
    elim first.error [
      | some e ↦ ok (finished (record { value = []; error = some e }), s')
      | none ↦
          if ltb (length first.value + 1) mtu
          then ok (finished first, s')
          else read_blobs fuel mtu s' vh first.value (length first.value % 65536)
    ]

  -- WriteCharacteristic with a response, and WriteDescriptor.
  unfoldable pub write_handle : S → ℕ → List ℕ → Run (Option ClientError × S)
  write_handle s h v = do
    (r, s') ← send_req s (Op.write_req ∷ put_uint16 h ++ v)
    elim r [
      | none ↦ ok (some not_sent, s')
      | some b ↦ do (done, err) ← finish Op.write_req h b; tail ← tail_of b; ok (att_error err, s')
    ]

  -- SetMTU, with the MTU that the client keeps.
  unfoldable pub set_mtu : S → ℕ → ℕ → Run (Option ClientError × ℕ × S)
  set_mtu s kept mtu = do
    (r, s') ← send_req s (Op.mtu_req ∷ put_uint16 mtu)
    elim r [
      | none ↦ ok (some not_sent, kept, s')
      | some b ↦ do
        (done, err) ← finish Op.mtu_req mtu b
        if done then ok (att_error err, kept, s') else do
          tail ← tail_of b
          server ← uint16 tail
          ok (att_error err, if ltb server mtu then server else mtu, s')
    ]
