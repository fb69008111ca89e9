-- ===== src/Central/Read.antt =====
-- central_linux.go: the requests that read attribute values, and central.go: the ResponseWriter that
-- an application's read handler fills.
pub mod Answers
pub mod Branches
pub mod Static
pub mod Within
use gatt.Prelude.{
  ℕ, ◌+◌, ◌%◌, List, [], ◌∷◌, ◌++◌, Bool, true, false, Option, none, some, not, ◌&&◌, Run, ok,
  panic, ◌>>=◌, Slice, slice_bytes, slice_from, uint16, exact, length, ◌==◌, ltb, bit_and,
  if◌then◌else◌,
}
use gatt.Uuid.{Uuid, equal}
use gatt.L2capWriter.{
  L2capWriter, new_writer, start_chunk, commit, commit_fit, chunk_seek, write_fit, write_byte_fit,
  write_uint16_fit, bytes,
}
use gatt.Att.{att_error_resp}
use gatt.Att.Op
use gatt.Att.ErrorCode
use gatt.Profile.{ReadHandler, char_read}
use gatt.AttrTable.{AttrRange, Attr, Pvt, service, characteristic, descriptor, subrange, at_handle}
use gatt.Central.State.{Central, security_low, mtu_minus}
use gatt.Central.Discovery.{read_handle_range}

-- The status that a handler sets is kept and never read: it is left out.
pub record ResponseWriter : Type 0 where
  pub capacity : ℕ
  pub buf : List ℕ

-- Write reports whether it wrote.
unfoldable pub write : ResponseWriter → List ℕ → Bool × ResponseWriter
write w b =
    if ltb w.capacity (length w.buf + length b)
    then (false, w)
    else (true, record w { buf = w.buf ++ b })

-- A handler's calls of Write, in turn.
unfoldable pub write_calls : ResponseWriter → List (List ℕ) → ResponseWriter
write_calls w [] = w
write_calls w (b ∷ bs) = write_calls (write w b).1 bs

-- ServeRead through a nil handler panics.
pub serve_read : Option ReadHandler → ℕ → ℕ → Run (List ℕ)
serve_read none capacity offset = panic
serve_read (some f) capacity offset =
    ok (write_calls (record { capacity = capacity; buf = [] }) (f capacity offset)).buf

pub serve_pvt : Pvt → ℕ → ℕ → Run (List ℕ)
serve_pvt (service s) capacity offset = ok []
serve_pvt (characteristic c) capacity offset = serve_read c.read_handler capacity offset
serve_pvt (descriptor d c) capacity offset = serve_read d.read_handler capacity offset

-- The static value, or what the handler serves.
unfoldable pub attribute_value : Central → Attr → ℕ → Run (List ℕ)
attribute_value c a offset = elim a.value [
  | some v ↦ ok v
  | none ↦ serve_pvt a.pvt (mtu_minus c 1) offset
]

-- `a.secure&CharRead != 0 && c.security > securityLow`
abbrev pub refuses_read : Central → Attr → Bool
refuses_read c a = not (bit_and a.secure char_read == 0) && ltb security_low c.security

-- A loop that may return early.
pub data Exit {ℓ} (A : Type ℓ) : Type ℓ where
  return : List ℕ → Exit A
  done : A → Exit A

-- `byte(uuidLen) + 2`
by_type_length : L2capWriter → Option ℕ → List ℕ → Run (ℕ × L2capWriter)
by_type_length w none v = do
  (_, w') ← write_byte_fit w ((length v % 256 + 2) % 256)
  ok (length v, w')
by_type_length w (some l) v = ok (l, w)

by_type_entry : L2capWriter → ℕ → List ℕ → Run (Bool × L2capWriter)
by_type_entry w h v = do
  w1 ← start_chunk w
  (_, w2) ← write_uint16_fit w1 h
  (_, w3) ← write_fit w2 v
  commit w3

by_type_loop :
    Central → Uuid → ℕ → L2capWriter → Option ℕ → List Attr → Run (Exit (Option ℕ × L2capWriter))
by_type_loop c t start w uuid_len [] = ok (done (uuid_len, w))
by_type_loop c t start w uuid_len (a ∷ aa) =
    let rest = by_type_loop c t start w uuid_len aa in
    if not (equal a.typ t)
    then rest
    else (if refuses_read c a
        then ok (return (att_error_resp Op.read_by_type_req start ErrorCode.authentication))
        else do
          v ← attribute_value c a 0
          (l, w1) ← by_type_length w uuid_len v
          if not (length v == l) then ok (done (some l, w1)) else do
            (fits, w2) ← by_type_entry w1 a.h v
            if fits then by_type_loop c t start w2 (some l) aa else ok (done (some l, w2)))

by_type_reply : ℕ → Exit (Option ℕ × L2capWriter) → Run (List ℕ)
by_type_reply start (return r) = ok r
by_type_reply start (done (none, w)) =
    ok (att_error_resp Op.read_by_type_req start ErrorCode.attr_not_found)
by_type_reply start (done (some l, w)) = bytes w

pub handle_read_by_type : Central → Slice → Run (List ℕ)
handle_read_by_type c b = do
  r ← slice_bytes b 0 4
  (start, end) ← read_handle_range (exact r)
  t ← slice_from b 4
  (_, w) ← write_byte_fit (new_writer c.mtu) Op.read_by_type_resp
  aa ← subrange c.attrs start end
  x ← by_type_loop c (record { b = t.elems }) start w none aa
  by_type_reply start x

-- What both reads of one attribute check first, in the order of the code; `none` lets the read pass.
abbrev pub read_refusal : Central → ℕ → ℕ → Attr → Option (List ℕ)
read_refusal c op h a =
    if bit_and a.props char_read == 0
    then some (att_error_resp op h ErrorCode.read_not_perm)
    else (if refuses_read c a then some (att_error_resp op h ErrorCode.authentication) else none)

-- An early return comes first.
abbrev pub unless : Option (List ℕ) → Run (List ℕ) → Run (List ℕ)
unless (some r) m = ok r
unless none m = m

read_value_reply : Central → Attr → Run (List ℕ)
read_value_reply c a = do
  v ← attribute_value c a 0
  (_, w) ← write_byte_fit (new_writer c.mtu) Op.read_resp
  w1 ← start_chunk w
  (_, w2) ← write_fit w1 v
  w3 ← commit_fit w2
  bytes w3

read_at : Central → ℕ → Run (List ℕ)
read_at c h = do
  found ← at_handle c.attrs h
  elim found [
    | none ↦ ok (att_error_resp Op.read_req h ErrorCode.invalid_handle)
    | some a ↦ unless (read_refusal c Op.read_req h a) (read_value_reply c a)
  ]

pub handle_read : Central → Slice → Run (List ℕ)
handle_read c b = do h ← uint16 b.elems; read_at c h

-- The offset that is left to skip: the handler has already adjusted for it.
abbrev pub left_offset : Attr → ℕ → ℕ
left_offset a offset = elim a.value [ some v ↦ offset | none ↦ 0 ]

read_blob_reply : Central → ℕ → ℕ → Attr → Run (List ℕ)
read_blob_reply c h offset a = do
  v ← attribute_value c a offset
  (_, w) ← write_byte_fit (new_writer c.mtu) Op.read_blob_resp
  w1 ← start_chunk w
  (_, w2) ← write_fit w1 v
  (found, w3) ← chunk_seek w2 (left_offset a offset)
  if not found
      then ok (att_error_resp Op.read_blob_req h ErrorCode.invalid_offset)
      else do w4 ← commit_fit w3; bytes w4

read_blob_at : Central → ℕ → ℕ → Run (List ℕ)
read_blob_at c h offset = do
  found ← at_handle c.attrs h
  elim found [
    | none ↦ ok (att_error_resp Op.read_blob_req h ErrorCode.invalid_handle)
    | some a ↦ unless (read_refusal c Op.read_blob_req h a) (read_blob_reply c h offset a)
  ]

pub handle_read_blob : Central → Slice → Run (List ℕ)
handle_read_blob c b = do
  h ← uint16 b.elems
  rest ← slice_from b 2
  offset ← uint16 rest.elems
  read_blob_at c h offset
