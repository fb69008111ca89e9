-- ===== src/Central/Discovery/Within/Groups.antt =====
-- central_linux.go: the same for the discovery of services by their groups.
use gatt.Prelude.{
  ℕ, ◌+◌, ◌%◌, ◌≤◌, ◌≡◌, List, [], ◌∷◌, Bool, Option, none, some, not, ◌>>=◌, Slice, slice_from,
  Ensures, Ensures-bind, Ensures-any, length, ◌==◌,
}
use gatt.Uuid.{equal}
use gatt.L2capWriter.{L2capWriter, new_writer, write_byte_fit}
use gatt.L2capWriter.Within.{
  Within, Kept, if-Ensures, start_chunk-Within, write_fit-Within, write_byte_fit-Within,
  write_uint16_fit-Within, commit-Within, bytes-Within,
}
use gatt.Att.{attr_primary_service_uuid}
use gatt.Att.Op
use gatt.AttrTable.{Attr, subrange}
use gatt.Central.State.{Central}
use gatt.Central.Discovery.{
  read_handle_range, as_service, value_bytes, by_group_length, by_group_entry, by_group_loop,
  by_group_reply, handle_read_by_group,
}
use gatt.Central.Discovery.Within.{Short, att_error_resp-Short, started}

module _ (m : ℕ) (room : 5 ≤ m) where
  by_group_length-Within :
      (w : L2capWriter) (l : Option ℕ) (a : Attr)
      → Within m w
      → Ensures (Kept m) (by_group_length w l a)
  unfolding by_group_length
  by_group_length-Within w none a h =
      Ensures-bind {P = Kept m} (Kept m) (write_byte_fit w ((length (value_bytes a) + 4) % 256)) _
        (write_byte_fit-Within m w h ((length (value_bytes a) + 4) % 256)) (λ p k. k)
  by_group_length-Within w (some l) a h = h

  by_group_entry-Within :
      (w : L2capWriter) (a : Attr) → Within m w → Ensures (Kept m) (by_group_entry w a)
  unfolding by_group_entry
  by_group_entry-Within w a h =
      Ensures-bind {P = λ _. Unit} (Kept m) (as_service a.pvt) _ (Ensures-any (as_service a.pvt))
        (λ s _. Ensures-bind (Kept m) _ _ (start_chunk-Within m w h) (λ (w1 : L2capWriter) h1.
          Ensures-bind (Kept m) _ _ (write_uint16_fit-Within m w1 h1 s.h)
            (λ (p2 : Bool × L2capWriter) h2.
              Ensures-bind (Kept m) _ _ (write_uint16_fit-Within m p2.1 h2 s.endh)
                (λ (p3 : Bool × L2capWriter) h3.
                  Ensures-bind (Kept m) _ _ (write_fit-Within m p3.1 h3 (value_bytes a))
                    (λ (p4 : Bool × L2capWriter) h4. commit-Within m p4.1 h4)))))

  by_group_loop-Within :
      (w : L2capWriter) (l : Option ℕ) (aa : List Attr)
      → Within m w
      → Ensures (Kept m) (by_group_loop w l aa)
  unfolding by_group_loop
  by_group_loop-Within w l [] h = h
  by_group_loop-Within w l (a ∷ aa) h =
      let rest = by_group_loop-Within w l aa h in
      if-Ensures (Kept m) (not (equal a.typ attr_primary_service_uuid)) _ _ (λ e. rest)
        (λ e.
          Ensures-bind {P = Kept m} (Kept m) (by_group_length w l a) _
            (by_group_length-Within w l a h)
            (λ (p1 : ℕ × L2capWriter) h1.
              if-Ensures (Kept m) (not (p1.0 == length (value_bytes a))) _ _ (λ f. h1)
                (λ f.
                  Ensures-bind {P = Kept m} (Kept m) (by_group_entry p1.1 a) _
                    (by_group_entry-Within p1.1 a h1)
                    (λ (p2 : Bool × L2capWriter) h2.
                      if-Ensures (Kept m) p2.0 _ _
                        (λ g. by_group_loop-Within p2.1 (some p1.0) aa h2) (λ g. h2)))))

  by_group_reply-Short :
      (start : ℕ) (l : Option ℕ) (w : L2capWriter)
      → Within m w
      → Ensures (Short m) (by_group_reply start l w)
  unfolding by_group_reply
  by_group_reply-Short start none w h = att_error_resp-Short m _ start _ room
  by_group_reply-Short start (some l) w h = bytes-Within m w h

  pub handle_read_by_group-Short :
      (c : Central) (b : Slice) → c.mtu ≡ m → Ensures (Short m) (handle_read_by_group c b)
  unfolding handle_read_by_group
  handle_read_by_group-Short c b e =
      Ensures-bind {P = λ _. Unit} (Short m) (read_handle_range b) _
        (Ensures-any (read_handle_range b))
        (λ (se : ℕ × ℕ) _.
          Ensures-bind {P = λ _. Unit} (Short m) (slice_from b 4) _ (Ensures-any (slice_from b 4))
            (λ t _.
              if-Ensures (Short m) (not (equal (record { b = t.elems }) attr_primary_service_uuid))
                _ _ (λ f. att_error_resp-Short m _ se.0 _ room) (λ f. found c se e)))
    where
      found :
          (c : Central) (se : ℕ × ℕ)
          → c.mtu ≡ m
          → Ensures (Short m) (do
            (_, w) ← write_byte_fit (new_writer c.mtu) Op.read_by_group_resp
            aa ← subrange c.attrs se.0 se.1
            (l, w') ← by_group_loop w none aa
            by_group_reply se.0 l w')
      found c se e =
          Ensures-bind {P = Kept m} (Short m)
            (write_byte_fit (new_writer c.mtu) Op.read_by_group_resp) _
            (write_byte_fit-Within m (new_writer c.mtu) (started m room c e) Op.read_by_group_resp)
            (λ (p : Bool × L2capWriter) h.
              Ensures-bind {P = λ _. Unit} (Short m) (subrange c.attrs se.0 se.1) _
                (Ensures-any (subrange c.attrs se.0 se.1))
                (λ aa _.
                  Ensures-bind {P = Kept m} (Short m) (by_group_loop p.1 none aa) _
                    (by_group_loop-Within p.1 none aa h)
                    (λ (q : Option ℕ × L2capWriter) k. by_group_reply-Short se.0 q.0 q.1 k)))
