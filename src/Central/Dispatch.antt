-- ===== src/Central/Dispatch.antt =====
-- Which handler a request of a client reaches.
use gatt.Prelude.{ℕ, ◌≡◌, refl, suc, List, ◌∷◌, arith, true, ◌>>=◌, ok, some, length, leb, le→leb}
use gatt.Att.Op
use gatt.Central.{handle_req, answer}
use gatt.Central.State.{Central}
use gatt.Central.Discovery.{handle_read_by_group}
use gatt.Central.Write.{handle_mtu, handle_write}
use gatt.Central.Read.{handle_read, handle_read_blob}

module _ (c : Central) (req spare : List ℕ) where
  some_bytes : leb 1 (suc (length req)) ≡ true
  some_bytes = le→leb 1 (suc (length req)) (omega arith)

  pub handle_req-mtu :
      handle_req c (record { elems = Op.mtu_req ∷ req; spare = spare })
      ≡ (handle_mtu c (record { elems = req; spare = spare }) >>= λ p. ok (some p.0, p.1))
  unfolding handle_req
  handle_req-mtu = rw some_bytes refl

  pub handle_req-write :
      handle_req c (record { elems = Op.write_req ∷ req; spare = spare })
      ≡ handle_write c Op.write_req (record { elems = req; spare = spare })
  unfolding handle_req
  handle_req-write = rw some_bytes refl

  pub handle_req-read :
      handle_req c (record { elems = Op.read_req ∷ req; spare = spare })
      ≡ answer c (handle_read c (record { elems = req; spare = spare }))
  unfolding handle_req
  handle_req-read = rw some_bytes refl

  pub handle_req-read_blob :
      handle_req c (record { elems = Op.read_blob_req ∷ req; spare = spare })
      ≡ answer c (handle_read_blob c (record { elems = req; spare = spare }))
  unfolding handle_req
  handle_req-read_blob = rw some_bytes refl

  pub handle_req-read_by_group :
      handle_req c (record { elems = Op.read_by_group_req ∷ req; spare = spare })
      ≡ answer c (handle_read_by_group c (record { elems = req; spare = spare }))
  unfolding handle_req
  handle_req-read_by_group = rw some_bytes refl
