-- ===== src/Link/LongRead.antt =====
-- A long read by the client reassembles the value that the server holds.
use gatt.Prelude.{
  ℕ, zero, suc, ◌+◌, ◌-◌, ◌%◌, ◌≤◌, ◌<◌, ◌≡◌, refl, subst, List, [], ◌∷◌, ◌++◌, none, some, arith,
  ok, put_uint16, length, take, drop, ltb, Bool-cases, inl, inr, length-take, length-drop, take_all,
  take_more, take-length-take, ◌≢◌, ltb→lt, ltb→le, ◌==◌, ==_iff,
}
use gatt.Att.{att_resp_for}
use gatt.Att.Op
use gatt.AttrTable.{Attr}
use gatt.Central.State.{Central}
use gatt.Central.Read.Static.{Holds, handle_read-static, handle_read_blob-static}
use gatt.Central.Dispatch.{handle_req-read, handle_req-read_blob}
use gatt.Client.Matching.{finish}
use gatt.Client.Matching.Accepted.{accepts_answer, await_response_accepted}
use gatt.Client.Reading.{finished, read_handle, read_blobs, read_long}
use gatt.Link.{link}

module _ (spare : List ℕ) {c : Central} {h : ℕ} {a : Attr} {v : List ℕ} (k : Holds c h a v) where
  link-read :
      link spare c (Op.read_req ∷ put_uint16 h) ≡ ok (some (Op.read_resp ∷ take (c.mtu - 1) v), c)
  unfolding link att_resp_for
  link-read =
      let taken = accepts_answer Op.read_req Op.read_resp (take (c.mtu - 1) v) refl in
      rw (handle_req-read c (put_uint16 h) spare)
        (rw (handle_read-static k [] spare) (rw (await_response_accepted _ _ [] taken) refl))

  link-read_blob :
      (off : ℕ)
      → off ≤ length v
      → off < 65536
      → link spare c (Op.read_blob_req ∷ put_uint16 h ++ put_uint16 off)
        ≡ ok (some (Op.read_blob_resp ∷ take (c.mtu - 1) (drop off v)), c)
  unfolding link att_resp_for
  link-read_blob off inside small =
      let taken =
        accepts_answer Op.read_blob_req Op.read_blob_resp (take (c.mtu - 1) (drop off v)) refl in
      rw (handle_req-read_blob c (put_uint16 h ++ put_uint16 off) spare) (
        rw (handle_read_blob-static k off [] spare inside small)
          (rw (await_response_accepted _ _ [] taken) refl))

  -- The client's blob loop from any offset reads the rest of the value.
  read_blobs-rest :
      (fuel mtu off : ℕ)
      → mtu ≤ c.mtu
      → length v < 65536
      → off ≤ length v
      → length v < fuel + off
      → read_blobs (link spare) fuel mtu c h (take off v) off
        ≡ ok (finished (record { value = v; error = none }), c)
  unfolding read_blobs finish
  read_blobs-rest zero mtu off small short inside enough = absurd (omega arith)
  read_blobs-rest (suc fuel) mtu off small short inside enough =
      let b = take (c.mtu - 1) (drop off v) in
      let size : ℕ = length b in
      let cut = length-take (c.mtu - 1) (drop off v) in
      let left = length-drop off v in
      let wrap : (off + size) % 65536 ≡ off + size = omega (arith, cut, left) in
      let joined = take_more off (c.mtu - 1) v inside in
      rw (link-read_blob off inside (omega arith), wrap, joined)
        (elim (Bool-cases (size == 0)) [
          | inl empty ↦
              let nothing = (==_iff size 0).0 empty in
              rw (empty, take_all off v (omega (arith, cut, left, k.room))) refl
          | inr some_more ↦ elim (Bool-cases (ltb (size + 1) mtu)) [
            | inl last ↦
                let less = ltb→lt _ _ last in
                rw (some_more, last, take_all (off + size) v (omega (arith, cut, left))) refl
            | inr full ↦
                let whole = ltb→le _ _ full in
                let positive : size ≢ 0 = λ e. cc (some_more, (==_iff size 0).1 e) in
                rw (some_more, full)
                  (read_blobs-rest fuel mtu (off + size) small short (omega (arith, cut, left))
                    (omega (arith, positive)))
          ]
        ])

  -- The client's long read of a value that the server holds ends, with the whole value and no error,
  -- and leaves the server as it was, for every value of fewer than 65536 bytes and every MTU of the
  -- client up to the server's (0, which the client starts with, included), on any fuel above the
  -- value's length. The server holds the value in a contiguous table under a readable handle, and has
  -- an MTU of at least 2.
  pub read_long-whole :
      (fuel mtu : ℕ)
      → mtu ≤ c.mtu
      → length v < 65536
      → length v < fuel
      → read_long (link spare) fuel mtu c h ≡ ok (finished (record { value = v; error = none }), c)
  unfolding read_long read_handle finish
  read_long-whole fuel mtu small short enough =
      let size : ℕ = length (take (c.mtu - 1) v) in
      let cut = length-take (c.mtu - 1) v in
      let wrap : size % 65536 ≡ size = omega (arith, cut) in
      rw (link-read, wrap)
        (elim (Bool-cases (ltb (size + 1) mtu)) [
          | inl last ↦
              let less = ltb→lt _ _ last in
              rw (last, take_all (c.mtu - 1) v (omega (arith, cut))) refl
          | inr full ↦ rw full (
              subst
                (λ b.
                  read_blobs (link spare) fuel mtu c h b size
                  ≡ ok (finished (record { value = v; error = none }), c))
                (take-length-take (c.mtu - 1) v)
                (read_blobs-rest fuel mtu size small short (omega (arith, cut)) (omega arith)))
        ])
