-- ===== src/Central/Read/Branches.antt =====
-- handleRead and handleReadBlob on every branch, against a description of their own.
use gatt.Prelude.{
  ℕ, ◌+◌, ◌-◌, ◌%◌, ◌/◌, ◌≤◌, ◌<◌, ◌≡◌, refl, sym, ap, ◌∙◌, List, [], ◌∷◌, ◌++◌, Option, none, some,
  Bool, true, false, not, bind_cong, le→leb, ◌&&◌, arith, Run, ok, panic, ◌>>=◌, put_uint16, length,
  length-append, take, drop, leb, ltb, ltb→le, ◌==◌, bit_and, if◌then◌else◌, Bool-cases,
  Option-cases, inl, inr, append_assoc, append-nil,
}
use gatt.Att.{att_error_resp}
use gatt.Profile.{ReadHandler}
use gatt.AttrTable.{Attr, Pvt, service, characteristic, descriptor}
use gatt.AttrTable.Lookup.{IsContiguous, find_handle}
use gatt.Central.State.{Central}
use gatt.Central.Read.{
  ResponseWriter, write, write_calls, serve_read, serve_pvt, attribute_value, read_refusal, unless,
  handle_read, handle_read_blob,
}
use gatt.Central.Read.Answers.{
  handle_read-answer, handle_read_blob-answer, read_answer, read_blob_answer,
}

-- An error response: the request, its handle and the reason.
abbrev pub refusal : ℕ → ℕ → ℕ → Run (List ℕ)
refusal op h code = ok (0x01 ∷ op ∷ h % 256 ∷ (h / 256 % 256) ∷ code ∷ [])

-- A reply to a request that reads the attribute `a`: Read Not Permitted without the read property;
-- Insufficient Authentication where reading is for secure connections, and the connection is above
-- the low level.
abbrev pub permitted : Central → ℕ → ℕ → Attr → Run (List ℕ) → Run (List ℕ)
permitted c op h a reply =
    if bit_and a.props 0x02 == 0
    then refusal op h 0x02
    else (if not (bit_and a.secure 0x02 == 0) && ltb 0 c.security then refusal op h 0x05 else reply)

-- What a handler's writes come to: each one is taken as a whole, if there is room for it.
abbrev pub accepted : ℕ → List (List ℕ) → List ℕ
accepted room [] = []
accepted room (b ∷ bs) =
    let more = accepted (room - length b) bs in
    let rest = accepted room bs in if ltb room (length b) then rest else b ++ more

abbrev pub handled : Option ReadHandler → ℕ → ℕ → Run (List ℕ)
handled none room offset = panic
handled (some f) room offset = ok (accepted room (f room offset))

-- What the application serves for an attribute without a static value, from `offset` on. A service has
-- nothing to serve.
abbrev pub dynamic : Pvt → ℕ → ℕ → Run (List ℕ)
dynamic (service s) room offset = ok []
dynamic (characteristic c) room offset = handled c.read_handler room offset
dynamic (descriptor d c) room offset = handled d.read_handler room offset

-- The reply to handleRead, by the attribute with the handle.
abbrev pub read_reply : Central → ℕ → Option Attr → Run (List ℕ)
read_reply c h none = refusal 0x0a h 0x01
read_reply c h (some a) = permitted c 0x0a h a (elim a.value [
  | some v ↦ ok (0x0b ∷ take (c.mtu - 1) v)
  | none ↦ dynamic a.pvt (c.mtu - 1) 0 >>= λ v. ok (0x0b ∷ take (c.mtu - 1) v)
])

-- The reply to handleReadBlob: of a static value the part from `offset` on; a handler has skipped it.
abbrev pub blob_part : Central → ℕ → ℕ → Attr → Run (List ℕ)
blob_part c h offset a = elim a.value [
  | some v ↦
      if leb offset (length v)
      then ok (0x0d ∷ take (c.mtu - 1) (drop offset v))
      else refusal 0x0c h 0x07
  | none ↦ dynamic a.pvt (c.mtu - 1) offset >>= λ v. ok (0x0d ∷ take (c.mtu - 1) v)
]

abbrev pub blob_reply : Central → ℕ → ℕ → Option Attr → Run (List ℕ)
blob_reply c h offset none = refusal 0x0c h 0x01
blob_reply c h offset (some a) = permitted c 0x0c h a (blob_part c h offset a)

write_calls-accepted :
    (room : ℕ) (w : ResponseWriter) (bs : List (List ℕ))
    → w.capacity ≡ length w.buf + room
    → (write_calls w bs).buf ≡ w.buf ++ accepted room bs
unfolding write_calls write
write_calls-accepted room w [] h = sym (append-nil w.buf)
write_calls-accepted room w (b ∷ bs) h = elim (Bool-cases (ltb room (length b))) [
  | inl over ↦
      let e : ltb w.capacity (length w.buf + length b) ≡ true = ground arith in
      rw (over, write_calls, write, e) (write_calls-accepted room w bs h)
  | inr fits ↦
      let e : ltb w.capacity (length w.buf + length b) ≡ false = ground arith in
      let small = ltb→le _ _ fits in
      let size = length-append w.buf b in
      let left : w.capacity ≡ length (w.buf ++ b) + (room - length b) = omega arith in
      let rest = write_calls-accepted (room - length b) (record w { buf = w.buf ++ b }) bs left in
      rw (fits, write_calls, write, e) (rest ∙ append_assoc w.buf b (accepted (room - length b) bs))
]

serve_read-handled :
    (f : Option ReadHandler) (room offset : ℕ) → serve_read f room offset ≡ handled f room offset
unfolding serve_read
serve_read-handled none room offset = refl
serve_read-handled (some f) room offset =
    ap ok (
      write_calls-accepted room (record { capacity = room; buf = [] }) (f room offset)
        (omega arith))

serve_pvt-dynamic : (p : Pvt) (room offset : ℕ) → serve_pvt p room offset ≡ dynamic p room offset
unfolding serve_pvt
serve_pvt-dynamic (service s) room offset = refl
serve_pvt-dynamic (characteristic c) room offset = serve_read-handled c.read_handler room offset
serve_pvt-dynamic (descriptor d c) room offset = serve_read-handled d.read_handler room offset

unless-permitted :
    (c : Central) (op h : ℕ) (a : Attr) (m : Run (List ℕ))
    → unless (read_refusal c op h a) m ≡ permitted c op h a m
unfolding att_error_resp
unless-permitted c op h a m = elim (Bool-cases (bit_and a.props 0x02 == 0)) [
  | inl e ↦ rw e refl
  | inr e ↦ elim (Bool-cases (not (bit_and a.secure 0x02 == 0) && ltb 0 c.security)) [
    | inl f ↦ rw (e, f) refl
    | inr f ↦ rw (e, f) refl
  ]
]

module _ (c : Central) (least : 1 ≤ c.mtu) (most : c.mtu < 65536) where
  attribute_value-static :
      (a : Attr) (offset : ℕ) {v : List ℕ} → a.value ≡ some v → attribute_value c a offset ≡ ok v
  unfolding attribute_value
  attribute_value-static a offset e = rw (attribute_value, e) refl

  attribute_value-dynamic :
      (a : Attr) (offset : ℕ)
      → a.value ≡ none
      → attribute_value c a offset ≡ dynamic a.pvt (c.mtu - 1) offset
  unfolding attribute_value
  attribute_value-dynamic a offset e =
      let room : (c.mtu + 65536 - 1) % 65536 ≡ c.mtu - 1 = omega arith in
      rw (attribute_value, e, room) (serve_pvt-dynamic a.pvt (c.mtu - 1) offset)

  read_answer-read_reply : (h : ℕ) (o : Option Attr) → read_answer c h o ≡ read_reply c h o
  unfolding att_error_resp
  read_answer-read_reply h none = refl
  read_answer-read_reply h (some a) = unless-permitted c 0x0a h a _ ∙ elim (Option-cases a.value) [
    | inl e ↦ rw (attribute_value-dynamic a 0 e, e) refl
    | inr (v, e) ↦ rw (attribute_value-static a 0 e, e) refl
  ]

  read_blob_answer-blob_reply :
      (h offset : ℕ) (o : Option Attr) → read_blob_answer c h offset o ≡ blob_reply c h offset o
  unfolding att_error_resp
  read_blob_answer-blob_reply h offset none = refl
  read_blob_answer-blob_reply h offset (some a) =
      unless-permitted c 0x0c h a _ ∙ elim (Option-cases a.value) [
        | inl e ↦
            rw (attribute_value-dynamic a offset e, e)
              (ap (permitted c 0x0c h a) (
                bind_cong (dynamic a.pvt (c.mtu - 1) offset) _ _
                  (λ v. rw (le→leb 0 (length v) (omega arith)) refl)))
        | inr (v, e) ↦
            rw (attribute_value-static a offset e, e)
              (ap (permitted c 0x0c h a) (part v (leb offset (length v))))
      ]
    where
      part :
          (v : List ℕ) (inside : Bool)
          → ok (
              if inside
              then 0x0d ∷ take (c.mtu - 1) (drop offset v)
              else att_error_resp 0x0c h 0x07)
            ≡ (if inside then ok (0x0d ∷ take (c.mtu - 1) (drop offset v)) else refusal 0x0c h 0x07)
      part v true = refl
      part v false = refl

  -- handleRead of a 16-bit handle from a contiguous table under an MTU of 1 to 65535, on every branch:
  -- the error Invalid Handle where the table has no such handle; Read Not Permitted where the attribute
  -- has no read property; Insufficient Authentication where its reads are secured and the connection is
  -- above the low level; and otherwise the static value, or what the handler writes for offset 0, cut to
  -- one byte less than the MTU, where it is a panic if there is no handler.
  pub handle_read-branches :
      (h : ℕ) (rest spare : List ℕ)
      → h < 65536
      → IsContiguous c.attrs
      → handle_read c (record { elems = put_uint16 h ++ rest; spare = spare })
        ≡ read_reply c h (find_handle h c.attrs.aa)
  handle_read-branches h rest spare small table =
      handle_read-answer c h rest spare small least table
      ∙ read_answer-read_reply h (find_handle h c.attrs.aa)

  -- handleReadBlob of a 16-bit handle and offset from a contiguous table under an MTU of 1 to 65535, on
  -- every branch: the errors of handleRead; otherwise of a static value the part from the offset on, or
  -- the error Invalid Offset where the offset is past its end, and without a static value what the
  -- handler writes for the offset, with nothing skipped; cut to one byte less than the MTU. It is a
  -- panic if there is no handler.
  pub handle_read_blob-branches :
      (h offset : ℕ) (rest spare : List ℕ)
      → h < 65536
      → offset < 65536
      → IsContiguous c.attrs
      → handle_read_blob c
          (record { elems = put_uint16 h ++ put_uint16 offset ++ rest; spare = spare })
        ≡ blob_reply c h offset (find_handle h c.attrs.aa)
  handle_read_blob-branches h offset rest spare small small' table =
      handle_read_blob-answer c h offset rest spare small small' least table
      ∙ read_blob_answer-blob_reply h offset (find_handle h c.attrs.aa)
