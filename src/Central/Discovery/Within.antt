-- ===== src/Central/Discovery/Within.antt =====
-- central_linux.go: the responses to the discovery requests keep within the MTU.
pub mod Groups
use gatt.Prelude.{
  ℕ, ◌+◌, ◌≤◌, ◌≡◌, refl, List, [], ◌∷◌, Bool, true, false, Option, none, some, not, Run, ok, panic,
  ◌>>=◌, arith, Slice, exact, slice_bytes, slice_from, Ensures, Ensures-bind, Ensures-any, length,
  bytes_equal, ◌==◌, if◌then◌else◌,
}
use gatt.Uuid.{Uuid, len, equal}
use gatt.L2capWriter.{L2capWriter, new_writer, write_byte_fit}
use gatt.L2capWriter.Within.{
  Within, Kept, if-Ensures, new_writer-Within, start_chunk-Within, write_fit-Within,
  write_byte_fit-Within, write_uint16_fit-Within, write_uuid_fit-Within, commit-Within,
  bytes-Within,
}
use gatt.Att.{att_error_resp, marshal, attr_primary_service_uuid}
use gatt.Att.Op
use gatt.AttrTable.{Attr, subrange}
use gatt.Central.State.{Central}
use gatt.Central.Discovery.{
  read_handle_range, as_service, value_bytes, find_info_format, find_info_entry, find_info_loop,
  find_info_reply, handle_find_info, find_by_type_value_entry, find_by_type_value_loop,
  find_by_type_value_reply, handle_find_by_type_value, by_group_length, by_group_entry,
  by_group_loop, by_group_reply, handle_read_by_group,
}

abbrev pub Short : ℕ → List ℕ → Type 0
Short m r = length r ≤ m

pub att_error_resp-Short : (m op h s : ℕ) → 5 ≤ m → length (att_error_resp op h s) ≤ m
unfolding att_error_resp marshal
att_error_resp-Short m op h s k = k

module _ (m : ℕ) (room : 5 ≤ m) where
  pub started : (c : Central) → c.mtu ≡ m → Within m (new_writer c.mtu)
  started c e = rw e (new_writer-Within m)

  find_info_format-Within :
      (w : L2capWriter) (l : Option ℕ) (a : Attr)
      → Within m w
      → Ensures (Kept m) (find_info_format w l a)
  unfolding find_info_format
  find_info_format-Within w none a h =
      Ensures-bind {P = Kept m} (Kept m) (write_byte_fit w (if len a.typ == 2 then 0x01 else 0x02))
        _ (write_byte_fit-Within m w h (if len a.typ == 2 then 0x01 else 0x02)) (λ p k. k)
  find_info_format-Within w (some l) a h = h

  find_info_entry-Within :
      (w : L2capWriter) (a : Attr) → Within m w → Ensures (Kept m) (find_info_entry w a)
  unfolding find_info_entry
  find_info_entry-Within w a h =
      Ensures-bind (Kept m) _ _ (start_chunk-Within m w h) (λ (w1 : L2capWriter) h1.
        Ensures-bind (Kept m) _ _ (write_uint16_fit-Within m w1 h1 a.h)
          (λ (p2 : Bool × L2capWriter) h2.
            Ensures-bind (Kept m) _ _ (write_uuid_fit-Within m p2.1 h2 a.typ)
              (λ (p3 : Bool × L2capWriter) h3. commit-Within m p3.1 h3)))

  find_info_loop-Within :
      (w : L2capWriter) (l : Option ℕ) (aa : List Attr)
      → Within m w
      → Ensures (Kept m) (find_info_loop w l aa)
  unfolding find_info_loop
  find_info_loop-Within w l [] h = h
  find_info_loop-Within w l (a ∷ aa) h =
      Ensures-bind {P = Kept m} (Kept m) (find_info_format w l a) _
        (find_info_format-Within w l a h)
        (λ (p1 : ℕ × L2capWriter) h1.
          if-Ensures (Kept m) (not (len a.typ == p1.0)) _ _ (λ e. h1)
            (λ e.
              Ensures-bind (Kept m) _ _ (find_info_entry-Within p1.1 a h1)
                (λ (p2 : Bool × L2capWriter) h2.
                  if-Ensures (Kept m) p2.0 _ _ (λ f. find_info_loop-Within p2.1 (some p1.0) aa h2)
                    (λ f. h2))))

  find_info_reply-Short :
      (start : ℕ) (l : Option ℕ) (w : L2capWriter)
      → Within m w
      → Ensures (Short m) (find_info_reply start l w)
  unfolding find_info_reply
  find_info_reply-Short start none w h = att_error_resp-Short m _ start _ room
  find_info_reply-Short start (some l) w h = bytes-Within m w h

  pub handle_find_info-Short :
      (c : Central) (b : Slice) → c.mtu ≡ m → Ensures (Short m) (handle_find_info c b)
  unfolding handle_find_info
  handle_find_info-Short c b e =
      Ensures-bind {P = λ _. Unit} (Short m) (slice_bytes b 0 4) _ (Ensures-any (slice_bytes b 0 4))
        (λ r _.
          Ensures-bind {P = λ _. Unit} (Short m) (read_handle_range (exact r)) _
            (Ensures-any (read_handle_range (exact r)))
            (λ (se : ℕ × ℕ) _.
              Ensures-bind {P = Kept m} (Short m)
                (write_byte_fit (new_writer c.mtu) Op.find_info_resp) _
                (write_byte_fit-Within m (new_writer c.mtu) (started c e) Op.find_info_resp)
                (λ (p : Bool × L2capWriter) h.
                  Ensures-bind {P = λ _. Unit} (Short m) (subrange c.attrs se.0 se.1) _
                    (Ensures-any (subrange c.attrs se.0 se.1))
                    (λ aa _.
                      Ensures-bind {P = Kept m} (Short m) (find_info_loop p.1 none aa) _
                        (find_info_loop-Within p.1 none aa h)
                        (λ (q : Option ℕ × L2capWriter) k. find_info_reply-Short se.0 q.0 q.1 k)))))

  find_by_type_value_entry-Within :
      (w : L2capWriter) (a : Attr) → Within m w → Ensures (Kept m) (find_by_type_value_entry w a)
  unfolding find_by_type_value_entry
  find_by_type_value_entry-Within w a h =
      Ensures-bind {P = λ _. Unit} (Kept m) (as_service a.pvt) _ (Ensures-any (as_service a.pvt))
        (λ s _. Ensures-bind (Kept m) _ _ (start_chunk-Within m w h) (λ (w1 : L2capWriter) h1.
          Ensures-bind (Kept m) _ _ (write_uint16_fit-Within m w1 h1 s.h)
            (λ (p2 : Bool × L2capWriter) h2.
              Ensures-bind (Kept m) _ _ (write_uint16_fit-Within m p2.1 h2 s.endh)
                (λ (p3 : Bool × L2capWriter) h3. commit-Within m p3.1 h3))))

  find_by_type_value_loop-Within :
      (u : Uuid) (w : L2capWriter) (wrote : Bool) (aa : List Attr)
      → Within m w
      → Ensures (Kept m) (find_by_type_value_loop u w wrote aa)
  unfolding find_by_type_value_loop
  find_by_type_value_loop-Within u w wrote [] h = h
  find_by_type_value_loop-Within u w wrote (a ∷ aa) h =
      let rest = find_by_type_value_loop-Within u w wrote aa h in
      if-Ensures (Kept m) (not (equal a.typ attr_primary_service_uuid)) _ _ (λ e. rest)
        (λ e.
          if-Ensures (Kept m) (not (bytes_equal (value_bytes a) u.b)) _ _ (λ f. rest)
            (λ f.
              Ensures-bind {P = Kept m} (Kept m) (find_by_type_value_entry w a) _
                (find_by_type_value_entry-Within w a h)
                (λ (p : Bool × L2capWriter) k.
                  if-Ensures (Kept m) p.0 _ _ (λ g. find_by_type_value_loop-Within u p.1 true aa k)
                    (λ g. k))))

  find_by_type_value_reply-Short :
      (start : ℕ) (wrote : Bool) (w : L2capWriter)
      → Within m w
      → Ensures (Short m) (find_by_type_value_reply start wrote w)
  unfolding find_by_type_value_reply
  find_by_type_value_reply-Short start false w h = att_error_resp-Short m _ start _ room
  find_by_type_value_reply-Short start true w h = bytes-Within m w h

  pub handle_find_by_type_value-Short :
      (c : Central) (b : Slice) → c.mtu ≡ m → Ensures (Short m) (handle_find_by_type_value c b)
  unfolding handle_find_by_type_value
  handle_find_by_type_value-Short c b e =
      Ensures-bind {P = λ _. Unit} (Short m) (slice_bytes b 0 4) _ (Ensures-any (slice_bytes b 0 4))
        (λ r _.
          Ensures-bind {P = λ _. Unit} (Short m) (read_handle_range (exact r)) _
            (Ensures-any (read_handle_range (exact r)))
            (λ (se : ℕ × ℕ) _.
              Ensures-bind {P = λ _. Unit} (Short m) (slice_bytes b 4 6) _
                (Ensures-any (slice_bytes b 4 6))
                (λ t _.
                  Ensures-bind {P = λ _. Unit} (Short m) (slice_from b 6) _
                    (Ensures-any (slice_from b 6))
                    (λ u _.
                      if-Ensures (Short m)
                        (not (equal (record { b = t }) attr_primary_service_uuid)) _ _
                        (λ f. att_error_resp-Short m _ se.0 _ room)
                        (λ f. found c se (record { b = u.elems }) e)))))
    where
      found :
          (c : Central) (se : ℕ × ℕ) (u : Uuid)
          → c.mtu ≡ m
          → Ensures (Short m) (do
            (_, w) ← write_byte_fit (new_writer c.mtu) Op.find_by_type_value_resp
            aa ← subrange c.attrs se.0 se.1
            (wrote, w') ← find_by_type_value_loop u w false aa
            find_by_type_value_reply se.0 wrote w')
      found c se u e =
          Ensures-bind {P = Kept m} (Short m)
            (write_byte_fit (new_writer c.mtu) Op.find_by_type_value_resp) _
            (write_byte_fit-Within m (new_writer c.mtu) (started c e) Op.find_by_type_value_resp)
            (λ (p : Bool × L2capWriter) h.
              Ensures-bind {P = λ _. Unit} (Short m) (subrange c.attrs se.0 se.1) _
                (Ensures-any (subrange c.attrs se.0 se.1))
                (λ aa _.
                  Ensures-bind {P = Kept m} (Short m) (find_by_type_value_loop u p.1 false aa) _
                    (find_by_type_value_loop-Within u p.1 false aa h)
                    (λ (q : Bool × L2capWriter) k. find_by_type_value_reply-Short se.0 q.0 q.1 k)))
