-- ===== src/Central/Read/Answers.antt =====
-- handleRead and handleReadBlob without the table and the writer.
use gatt.Prelude.{
  ℕ, ◌-◌, ◌≤◌, ◌<◌, ◌≡◌, refl, ap, List, [], ◌∷◌, ◌++◌, Option, none, some, not, arith, Run, ok,
  ◌>>=◌, put_uint16, length, take, drop, leb, if◌then◌else◌, Bool-cases, inl, inr, le→leb,
  bind_cong,
}
use gatt.Att.{att_error_resp}
use gatt.Att.Op
use gatt.Att.ErrorCode
use gatt.L2capWriter.{
  new_writer, start_chunk, write_fit, write_byte_fit, bytes, commit_fit, chunk_seek,
}
use gatt.L2capWriter.Writes.{idle, write_byte_fit-idle}
use gatt.L2capWriter.Chunks.{commit_fit-filling, chunk_seek-filling}
use gatt.AttrTable.{Attr}
use gatt.AttrTable.Lookup.{IsContiguous, find_handle, at_handle-find_handle}
use gatt.Central.State.{Central}
use gatt.Central.Discovery.Ranges.{bytes_of_uint16}
use gatt.Central.Read.{
  handle_read, handle_read_blob, read_at, read_blob_at, read_value_reply, read_blob_reply,
  read_refusal, attribute_value, left_offset, unless,
}

-- The response to a read whose value is `v`.
value_reply :
    (m op : ℕ) (v : List ℕ)
    → 1 ≤ m
    → (do
      (_, w) ← write_byte_fit (idle m []) op
      w1 ← start_chunk w
      (_, w2) ← write_fit w1 v
      w3 ← commit_fit w2
      bytes w3)
      ≡ ok (op ∷ take (m - 1) v)
unfolding start_chunk write_fit bytes
value_reply m op v h =
    rw (write_byte_fit-idle m [] op h) (rw (commit_fit-filling m (op ∷ []) v h) refl)

-- A blob skips `k` bytes first, and refuses if the value is shorter.
blob_reply :
    (m op h k : ℕ) (v : List ℕ)
    → 1 ≤ m
    → (do
      (_, w) ← write_byte_fit (idle m []) op
      w1 ← start_chunk w
      (_, w2) ← write_fit w1 v
      (found, w3) ← chunk_seek w2 k
      if not found
          then ok (att_error_resp Op.read_blob_req h ErrorCode.invalid_offset)
          else do w4 ← commit_fit w3; bytes w4)
      ≡ ok (
          if leb k (length v)
          then op ∷ take (m - 1) (drop k v)
          else att_error_resp Op.read_blob_req h ErrorCode.invalid_offset)
unfolding start_chunk write_fit bytes
blob_reply m op h k v one = rw (write_byte_fit-idle m [] op one) (
    rw (chunk_seek-filling m (op ∷ []) v k) (elim (Bool-cases (leb k (length v))) [
      | inl long ↦ rw long (rw (commit_fit-filling m (op ∷ []) (drop k v) one) refl)
      | inr short ↦ rw short refl
    ]))

-- The answer to a read of handle `h`, by the attribute with that handle, if there is one.
abbrev pub read_answer : Central → ℕ → Option Attr → Run (List ℕ)
read_answer c h none = ok (att_error_resp Op.read_req h ErrorCode.invalid_handle)
read_answer c h (some a) =
    unless (read_refusal c Op.read_req h a)
      (attribute_value c a 0 >>= λ v. ok (Op.read_resp ∷ take (c.mtu - 1) v))

-- The answer to a read of the part from `offset` on.
abbrev pub read_blob_answer : Central → ℕ → ℕ → Option Attr → Run (List ℕ)
read_blob_answer c h offset none = ok (att_error_resp Op.read_blob_req h ErrorCode.invalid_handle)
read_blob_answer c h offset (some a) = unless (read_refusal c Op.read_blob_req h a) (
    attribute_value c a offset >>= λ v. ok (
      if leb (left_offset a offset) (length v)
      then Op.read_blob_resp ∷ take (c.mtu - 1) (drop (left_offset a offset) v)
      else att_error_resp Op.read_blob_req h ErrorCode.invalid_offset))

read_at-answer :
    (c : Central) (h : ℕ)
    → 1 ≤ c.mtu
    → IsContiguous c.attrs
    → read_at c h ≡ read_answer c h (find_handle h c.attrs.aa)
unfolding read_at read_value_reply new_writer
read_at-answer c h one table =
    rw (at_handle-find_handle c.attrs h table) (found (find_handle h c.attrs.aa))
  where
    found :
        (o : Option Attr)
        → elim o [
          | none ↦ ok (att_error_resp Op.read_req h ErrorCode.invalid_handle)
          | some a ↦ unless (read_refusal c Op.read_req h a) (read_value_reply c a)
        ]
          ≡ read_answer c h o
    found none = refl
    found (some a) =
        ap (unless (read_refusal c Op.read_req h a))
          (bind_cong (attribute_value c a 0) _ _ (λ v. value_reply c.mtu Op.read_resp v one))

read_blob_at-answer :
    (c : Central) (h offset : ℕ)
    → 1 ≤ c.mtu
    → IsContiguous c.attrs
    → read_blob_at c h offset ≡ read_blob_answer c h offset (find_handle h c.attrs.aa)
unfolding read_blob_at read_blob_reply new_writer
read_blob_at-answer c h offset one table =
    rw (at_handle-find_handle c.attrs h table) (found (find_handle h c.attrs.aa))
  where
    found :
        (o : Option Attr)
        → elim o [
          | none ↦ ok (att_error_resp Op.read_blob_req h ErrorCode.invalid_handle)
          | some a ↦ unless (read_refusal c Op.read_blob_req h a) (read_blob_reply c h offset a)
        ]
          ≡ read_blob_answer c h offset o
    found none = refl
    found (some a) = ap (unless (read_refusal c Op.read_blob_req h a)) (
        bind_cong (attribute_value c a offset) _ _
          (λ v. blob_reply c.mtu Op.read_blob_resp h (left_offset a offset) v one))

pub handle_read-answer :
    (c : Central) (h : ℕ) (rest spare : List ℕ)
    → h < 65536
    → 1 ≤ c.mtu
    → IsContiguous c.attrs
    → handle_read c (record { elems = put_uint16 h ++ rest; spare = spare })
      ≡ read_answer c h (find_handle h c.attrs.aa)
unfolding handle_read
handle_read-answer c h rest spare small one table =
    rw (bytes_of_uint16 h small) (read_at-answer c h one table)

pub handle_read_blob-answer :
    (c : Central) (h offset : ℕ) (rest spare : List ℕ)
    → h < 65536
    → offset < 65536
    → 1 ≤ c.mtu
    → IsContiguous c.attrs
    → handle_read_blob c
        (record { elems = put_uint16 h ++ put_uint16 offset ++ rest; spare = spare })
      ≡ read_blob_answer c h offset (find_handle h c.attrs.aa)
unfolding handle_read_blob
handle_read_blob-answer c h offset rest spare small small' one table =
    rw (le→leb 2 (length (put_uint16 h ++ put_uint16 offset ++ rest)) (omega arith)) (
      rw (bytes_of_uint16 h small, bytes_of_uint16 offset small')
        (read_blob_at-answer c h offset one table))
