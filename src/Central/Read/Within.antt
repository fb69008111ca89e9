-- ===== src/Central/Read/Within.antt =====
-- central_linux.go: the responses to the reads keep within the MTU.
use gatt.Prelude.{
  ℕ, ◌+◌, ◌%◌, ◌≤◌, ◌≡◌, List, [], ◌∷◌, Bool, true, false, Option, none, some, not, bit_and, uint16,
  Run, Slice, exact, slice_bytes, slice_from, Ensures, Ensures-bind, Ensures-any, length, ◌==◌,
  if◌then◌else◌,
}
use gatt.Uuid.{Uuid, equal}
use gatt.L2capWriter.{L2capWriter, new_writer, write_byte_fit}
use gatt.L2capWriter.Within.{
  Within, Kept, if-Ensures, start_chunk-Within, write_fit-Within, write_byte_fit-Within,
  write_uint16_fit-Within, commit-Within, commit_fit-Within, chunk_seek-Within, bytes-Within,
}
use gatt.Att.Op
use gatt.Profile.{char_read}
use gatt.AttrTable.{Attr, subrange, at_handle}
use gatt.Central.State.{Central}
use gatt.Central.Discovery.{read_handle_range}
use gatt.Central.Discovery.Within.{Short, att_error_resp-Short, started}
use gatt.Central.Read.{
  attribute_value, refuses_read, Exit, return, done, by_type_length, by_type_entry, by_type_loop,
  by_type_reply, handle_read_by_type, read_refusal, unless, read_value_reply, read_at, handle_read,
  left_offset, read_blob_reply, read_blob_at, handle_read_blob,
}

-- An early return within the MTU, or a writer that is.
abbrev ExitWithin : ℕ → Exit (Option ℕ × L2capWriter) → Type 0
ExitWithin m (return r) = length r ≤ m
ExitWithin m (done p) = Within m p.1

-- An early return, if there is one.
abbrev pub MaybeShort : ℕ → Option (List ℕ) → Type 0
MaybeShort m none = Unit
MaybeShort m (some r) = length r ≤ m

pub if-MaybeShort :
    (m : ℕ) (b : Bool) (x y : Option (List ℕ))
    → MaybeShort m x
    → MaybeShort m y
    → MaybeShort m (if b then x else y)
if-MaybeShort m true x y f g = f
if-MaybeShort m false x y f g = g

option-Short {ℓ} :
    {A : Type ℓ} (m : ℕ) (o : Option A) (x : Run (List ℕ)) (f : A → Run (List ℕ))
    → Ensures (Short m) x
    → ((a : A) → Ensures (Short m) (f a))
    → Ensures (Short m) (elim o [ none ↦ x | some a ↦ f a ])
option-Short m none x f g h = g
option-Short m (some a) x f g h = h a

module _ (m : ℕ) (room : 5 ≤ m) where
  by_type_length-Within :
      (w : L2capWriter) (l : Option ℕ) (v : List ℕ)
      → Within m w
      → Ensures (Kept m) (by_type_length w l v)
  unfolding by_type_length
  by_type_length-Within w none v h =
      Ensures-bind {P = Kept m} (Kept m) (write_byte_fit w ((length v % 256 + 2) % 256)) _
        (write_byte_fit-Within m w h ((length v % 256 + 2) % 256)) (λ p k. k)
  by_type_length-Within w (some l) v h = h

  by_type_entry-Within :
      (w : L2capWriter) (n : ℕ) (v : List ℕ) → Within m w → Ensures (Kept m) (by_type_entry w n v)
  unfolding by_type_entry
  by_type_entry-Within w n v h =
      Ensures-bind (Kept m) _ _ (start_chunk-Within m w h) (λ (w1 : L2capWriter) h1.
        Ensures-bind (Kept m) _ _ (write_uint16_fit-Within m w1 h1 n)
          (λ (p2 : Bool × L2capWriter) h2.
            Ensures-bind (Kept m) _ _ (write_fit-Within m p2.1 h2 v)
              (λ (p3 : Bool × L2capWriter) h3. commit-Within m p3.1 h3)))

  by_type_loop-Within :
      (c : Central) (t : Uuid) (start : ℕ) (w : L2capWriter) (l : Option ℕ) (aa : List Attr)
      → Within m w
      → Ensures (ExitWithin m) (by_type_loop c t start w l aa)
  unfolding by_type_loop
  by_type_loop-Within c t start w l [] h = h
  by_type_loop-Within c t start w l (a ∷ aa) h =
      let rest = by_type_loop-Within c t start w l aa h in
      if-Ensures (ExitWithin m) (not (equal a.typ t)) _ _ (λ e. rest)
        (λ e.
          if-Ensures (ExitWithin m) (refuses_read c a) _ _
            (λ f. att_error_resp-Short m _ start _ room)
            (λ f.
              Ensures-bind {P = λ _. Unit} (ExitWithin m) (attribute_value c a 0) _
                (Ensures-any (attribute_value c a 0))
                (λ v _.
                  Ensures-bind {P = Kept m} (ExitWithin m) (by_type_length w l v) _
                    (by_type_length-Within w l v h)
                    (λ (p1 : ℕ × L2capWriter) h1.
                      if-Ensures (ExitWithin m) (not (length v == p1.0)) _ _ (λ g. h1)
                        (λ g.
                          Ensures-bind {P = Kept m} (ExitWithin m) (by_type_entry p1.1 a.h v) _
                            (by_type_entry-Within p1.1 a.h v h1)
                            (λ (p2 : Bool × L2capWriter) h2.
                              if-Ensures (ExitWithin m) p2.0 _ _
                                (λ k. by_type_loop-Within c t start p2.1 (some p1.0) aa h2)
                                (λ k. h2)))))))

  by_type_reply-Short :
      (start : ℕ) (x : Exit (Option ℕ × L2capWriter))
      → ExitWithin m x
      → Ensures (Short m) (by_type_reply start x)
  unfolding by_type_reply
  by_type_reply-Short start (return r) h = h
  by_type_reply-Short start (done (none, w)) h = att_error_resp-Short m _ start _ room
  by_type_reply-Short start (done (some l, w)) h = bytes-Within m w h

  pub handle_read_by_type-Short :
      (c : Central) (b : Slice) → c.mtu ≡ m → Ensures (Short m) (handle_read_by_type c b)
  unfolding handle_read_by_type
  handle_read_by_type-Short c b e =
      Ensures-bind {P = λ _. Unit} (Short m) (slice_bytes b 0 4) _ (Ensures-any (slice_bytes b 0 4))
        (λ r _.
          Ensures-bind {P = λ _. Unit} (Short m) (read_handle_range (exact r)) _
            (Ensures-any (read_handle_range (exact r)))
            (λ (se : ℕ × ℕ) _.
              Ensures-bind {P = λ _. Unit} (Short m) (slice_from b 4) _
                (Ensures-any (slice_from b 4))
                (λ t _.
                  Ensures-bind {P = Kept m} (Short m)
                    (write_byte_fit (new_writer c.mtu) Op.read_by_type_resp) _
                    (write_byte_fit-Within m (new_writer c.mtu) (started m room c e)
                      Op.read_by_type_resp)
                    (λ (p : Bool × L2capWriter) h.
                      Ensures-bind {P = λ _. Unit} (Short m) (subrange c.attrs se.0 se.1) _
                        (Ensures-any (subrange c.attrs se.0 se.1))
                        (λ aa _.
                          Ensures-bind {P = ExitWithin m} (Short m)
                            (by_type_loop c (record { b = t.elems }) se.0 p.1 none aa) _
                            (by_type_loop-Within c (record { b = t.elems }) se.0 p.1 none aa h)
                            (λ x k. by_type_reply-Short se.0 x k))))))

  read_value_reply-Short :
      (c : Central) (a : Attr) → c.mtu ≡ m → Ensures (Short m) (read_value_reply c a)
  unfolding read_value_reply
  read_value_reply-Short c a e =
      Ensures-bind {P = λ _. Unit} (Short m) (attribute_value c a 0) _
        (Ensures-any (attribute_value c a 0))
        (λ v _.
          Ensures-bind {P = Kept m} (Short m) (write_byte_fit (new_writer c.mtu) Op.read_resp) _
            (write_byte_fit-Within m (new_writer c.mtu) (started m room c e) Op.read_resp)
            (λ (p : Bool × L2capWriter) h.
              Ensures-bind (Short m) _ _ (start_chunk-Within m p.1 h) (λ (w1 : L2capWriter) h1.
                Ensures-bind (Short m) _ _ (write_fit-Within m w1 h1 v)
                  (λ (p2 : Bool × L2capWriter) h2.
                    Ensures-bind (Short m) _ _ (commit_fit-Within m p2.1 h2)
                      (λ (w3 : L2capWriter) h3. bytes-Within m w3 h3)))))

  unless-Short :
      (o : Option (List ℕ)) (x : Run (List ℕ))
      → MaybeShort m o
      → Ensures (Short m) x
      → Ensures (Short m) (unless o x)
  unless-Short none x f h = h
  unless-Short (some r) x f h = f

  read_refusal-MaybeShort :
      (c : Central) (op n : ℕ) (a : Attr) → MaybeShort m (read_refusal c op n a)
  read_refusal-MaybeShort c op n a =
      if-MaybeShort m (bit_and a.props char_read == 0) _ _ (att_error_resp-Short m _ _ _ room)
        (if-MaybeShort m (refuses_read c a) _ _ (att_error_resp-Short m _ _ _ room) tt)

  read_at-Short : (c : Central) (n : ℕ) → c.mtu ≡ m → Ensures (Short m) (read_at c n)
  unfolding read_at
  read_at-Short c n e =
      Ensures-bind {P = λ _. Unit} (Short m) (at_handle c.attrs n) _
        (Ensures-any (at_handle c.attrs n))
        (λ o _. option-Short m o _ _ (att_error_resp-Short m _ n _ room) (λ a.
          unless-Short (read_refusal c Op.read_req n a) _
            (read_refusal-MaybeShort c Op.read_req n a) (read_value_reply-Short c a e)))

  pub handle_read-Short :
      (c : Central) (b : Slice) → c.mtu ≡ m → Ensures (Short m) (handle_read c b)
  unfolding handle_read
  handle_read-Short c b e =
      Ensures-bind {P = λ _. Unit} (Short m) (uint16 b.elems) _ (Ensures-any (uint16 b.elems))
        (λ n _. read_at-Short c n e)

  read_blob_reply-Short :
      (c : Central) (n offset : ℕ) (a : Attr)
      → c.mtu ≡ m
      → Ensures (Short m) (read_blob_reply c n offset a)
  unfolding read_blob_reply
  read_blob_reply-Short c n offset a e =
      Ensures-bind {P = λ _. Unit} (Short m) (attribute_value c a offset) _
        (Ensures-any (attribute_value c a offset))
        (λ v _.
          Ensures-bind {P = Kept m} (Short m) (write_byte_fit (new_writer c.mtu) Op.read_blob_resp)
            _ (write_byte_fit-Within m (new_writer c.mtu) (started m room c e) Op.read_blob_resp)
            (λ (p : Bool × L2capWriter) h.
              Ensures-bind (Short m) _ _ (start_chunk-Within m p.1 h) (λ (w1 : L2capWriter) h1.
                Ensures-bind (Short m) _ _ (write_fit-Within m w1 h1 v)
                  (λ (p2 : Bool × L2capWriter) h2.
                    Ensures-bind (Short m) _ _ (chunk_seek-Within m p2.1 h2 (left_offset a offset))
                      (λ (p3 : Bool × L2capWriter) h3.
                        if-Ensures (Short m) (not p3.0) _ _ (λ f. att_error_resp-Short m _ n _ room)
                          (λ f.
                            Ensures-bind (Short m) _ _ (commit_fit-Within m p3.1 h3)
                              (λ (w4 : L2capWriter) h4. bytes-Within m w4 h4)))))))

  read_blob_at-Short :
      (c : Central) (n offset : ℕ) → c.mtu ≡ m → Ensures (Short m) (read_blob_at c n offset)
  unfolding read_blob_at
  read_blob_at-Short c n offset e =
      Ensures-bind {P = λ _. Unit} (Short m) (at_handle c.attrs n) _
        (Ensures-any (at_handle c.attrs n))
        (λ o _. option-Short m o _ _ (att_error_resp-Short m _ n _ room) (λ a.
          unless-Short (read_refusal c Op.read_blob_req n a) _
            (read_refusal-MaybeShort c Op.read_blob_req n a)
            (read_blob_reply-Short c n offset a e)))

  pub handle_read_blob-Short :
      (c : Central) (b : Slice) → c.mtu ≡ m → Ensures (Short m) (handle_read_blob c b)
  unfolding handle_read_blob
  handle_read_blob-Short c b e =
      Ensures-bind {P = λ _. Unit} (Short m) (uint16 b.elems) _ (Ensures-any (uint16 b.elems))
        (λ n _.
          Ensures-bind {P = λ _. Unit} (Short m) (slice_from b 2) _ (Ensures-any (slice_from b 2))
            (λ r _.
              Ensures-bind {P = λ _. Unit} (Short m) (uint16 r.elems) _
                (Ensures-any (uint16 r.elems)) (λ offset _. read_blob_at-Short c n offset e)))
