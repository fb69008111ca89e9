-- ===== src/Central/Read/Static.antt =====
-- Reads of an attribute with a static value.
use gatt.Prelude.{
  ℕ, ◌-◌, ◌≤◌, ◌<◌, ◌≡◌, refl, ap, ◌∙◌, List, ◌∷◌, ◌++◌, none, some, arith, Run, ok, ◌>>=◌,
  put_uint16, length, take, drop, leb, le→leb, if◌then◌else◌,
}
use gatt.Att.Op
use gatt.Att.{att_error_resp}
use gatt.Att.ErrorCode
use gatt.AttrTable.{Attr}
use gatt.AttrTable.Lookup.{IsContiguous, find_handle}
use gatt.Central.State.{Central}
use gatt.Central.Read.{
  handle_read, handle_read_blob, read_refusal, attribute_value, unless, left_offset,
}
use gatt.Central.Read.Answers.{
  handle_read-answer, handle_read_blob-answer, read_answer, read_blob_answer,
}

-- The server holds the static value `v` under the handle `h`, and lets it be read.
pub record Holds (c : Central) (h : ℕ) (a : Attr) (v : List ℕ) : Type 0 where
  pub table : IsContiguous c.attrs
  pub small : h < 65536
  pub found : find_handle h c.attrs.aa ≡ some a
  pub static : a.value ≡ some v
  pub readable : (op : ℕ) → read_refusal c op h a ≡ none
  pub room : 2 ≤ c.mtu

module _ {c : Central} {h : ℕ} {a : Attr} {v : List ℕ} (k : Holds c h a v) where
  attribute_value_static : (offset : ℕ) → attribute_value c a offset ≡ ok v
  unfolding attribute_value
  attribute_value_static offset = rw (k.static, attribute_value) refl

  pub handle_read-static :
      (rest spare : List ℕ)
      → handle_read c (record { elems = put_uint16 h ++ rest; spare = spare })
        ≡ ok (Op.read_resp ∷ take (c.mtu - 1) v)
  handle_read-static rest spare =
      handle_read-answer c h rest spare k.small (omega (arith, k.room)) k.table
      ∙ ap (read_answer c h) k.found
      ∙ ap (λ o. unless o (attribute_value c a 0 >>= λ v. ok (Op.read_resp ∷ take (c.mtu - 1) v)))
          (k.readable Op.read_req)
      ∙ ap (λ (m : Run (List ℕ)). m >>= λ v. ok (Op.read_resp ∷ take (c.mtu - 1) v))
          (attribute_value_static 0)

  pub handle_read_blob-static :
      (offset : ℕ) (rest spare : List ℕ)
      → offset ≤ length v
      → offset < 65536
      → handle_read_blob c
          (record { elems = put_uint16 h ++ put_uint16 offset ++ rest; spare = spare })
        ≡ ok (Op.read_blob_resp ∷ take (c.mtu - 1) (drop offset v))
  handle_read_blob-static offset rest spare inside small =
      handle_read_blob-answer c h offset rest spare k.small small (omega (arith, k.room)) k.table
      ∙ ap (read_blob_answer c h offset) k.found
      ∙ ap (λ o. unless o (attribute_value c a offset >>= reply (left_offset a offset)))
          (k.readable Op.read_blob_req)
      ∙ ap (λ (m : Run (List ℕ)). m >>= reply (left_offset a offset))
          (attribute_value_static offset)
      ∙ ap (λ n. reply n v) skipped
      ∙ ap ok (rw (le→leb offset (length v) inside) refl)
    where
      reply : ℕ → List ℕ → Run (List ℕ)
      reply n w = ok (
          if leb n (length w)
          then Op.read_blob_resp ∷ take (c.mtu - 1) (drop n w)
          else att_error_resp Op.read_blob_req h ErrorCode.invalid_offset)

      skipped : left_offset a offset ≡ offset
      skipped = rw (k.static, left_offset) refl
