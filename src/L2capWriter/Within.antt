-- ===== src/L2capWriter/Within.antt =====
-- The writer keeps the response within the MTU, whatever is called in whatever order.
use gatt.Prelude.{
  put_uint16, ℕ, ◌+◌, ◌-◌, ◌≤◌, ◌≡◌, refl, List, [], ◌∷◌, Bool, true, false, Run, arith, Ensures,
  length, length-append, length-take, take, ltb, leb, leb→le, if◌then◌else◌,
}
use gatt.Uuid.{Uuid}
use gatt.L2capWriter.{
  L2capWriter, new_writer, start_chunk, commit, commit_fit, write_fit, write_byte_fit,
  write_uint16_fit, write_uuid_fit, chunk_seek, bytes,
}

pub record Within (m : ℕ) (w : L2capWriter) : Type 0 where
  pub mtu : w.mtu ≡ m
  pub short : length w.buf ≤ m

-- Of a result with its writer.
abbrev pub Kept {ℓ} : {A : Type ℓ} → ℕ → A × L2capWriter → Type 0
Kept m p = Within m p.1

pub if-Ensures {ℓ κ} :
    {A : Type ℓ} (P : A → Type κ) (b : Bool) (x y : Run A)
    → (b ≡ true → Ensures P x)
    → (b ≡ false → Ensures P y)
    → Ensures P (if b then x else y)
if-Ensures P true x y f g = f refl
if-Ensures P false x y f g = g refl

pub new_writer-Within : (m : ℕ) → Within m (new_writer m)
unfolding new_writer
new_writer-Within m = record { mtu = refl; short = omega arith }

module _ (m : ℕ) (w : L2capWriter) (h : Within m w) where
  pub start_chunk-Within : Ensures (Within m) (start_chunk w)
  unfolding start_chunk
  start_chunk-Within =
      if-Ensures (Within m) w.chunked _ _ (λ e. tt) (λ e. record { mtu = h.mtu; short = h.short })

  pub write_fit-Within : (b : List ℕ) → Ensures (Kept m) (write_fit w b)
  unfolding write_fit
  write_fit-Within b =
      let bound = h.short in
      let same = h.mtu in
      let whole = length-append w.buf b in
      let cut = length-append w.buf (take (w.mtu - length w.buf) b) in
      let part = length-take (w.mtu - length w.buf) b in
      if-Ensures (Kept m) w.chunked _ _ (λ e. record { mtu = h.mtu; short = h.short })
        (λ e.
          if-Ensures (Kept m) (leb (length w.buf + length b) w.mtu) _ _
            (λ f. let fits = leb→le _ _ f in record { mtu = h.mtu; short = omega arith })
            (λ f.
              if-Ensures (Kept m) (ltb w.mtu (length w.buf)) _ _ (λ g. tt)
                (λ g. record { mtu = h.mtu; short = omega arith })))

  pub write_byte_fit-Within : (b : ℕ) → Ensures (Kept m) (write_byte_fit w b)
  unfolding write_byte_fit
  write_byte_fit-Within b = write_fit-Within (b ∷ [])

  pub write_uint16_fit-Within : (v : ℕ) → Ensures (Kept m) (write_uint16_fit w v)
  unfolding write_uint16_fit
  write_uint16_fit-Within v = write_fit-Within (put_uint16 v)

  pub write_uuid_fit-Within : (u : Uuid) → Ensures (Kept m) (write_uuid_fit w u)
  unfolding write_uuid_fit
  write_uuid_fit-Within u = write_fit-Within u.b

  pub commit-Within : Ensures (Kept m) (commit w)
  unfolding commit
  commit-Within =
      let same = h.mtu in
      let whole = length-append w.buf w.chunk in
      if-Ensures (Kept m) w.chunked _ _
        (λ e.
          if-Ensures (Kept m) (leb (length w.buf + length w.chunk) w.mtu) _ _
            (λ f. let fits = leb→le _ _ f in record { mtu = h.mtu; short = omega arith })
            (λ f. record { mtu = h.mtu; short = h.short }))
        (λ e. tt)

  pub commit_fit-Within : Ensures (Within m) (commit_fit w)
  unfolding commit_fit
  commit_fit-Within =
      let same = h.mtu in
      let bound = h.short in
      let avail = w.mtu - length w.buf in
      let n = if ltb (length w.chunk) avail then length w.chunk else avail in
      let whole = length-append w.buf (take n w.chunk) in
      let part = length-take n w.chunk in
      let room : n ≤ avail = ground arith in
      if-Ensures (Within m) w.chunked _ _
        (λ e.
          if-Ensures (Within m) (ltb w.mtu (length w.buf)) _ _ (λ f. tt)
            (λ f. record { mtu = h.mtu; short = omega arith }))
        (λ e. tt)

  pub chunk_seek-Within : (k : ℕ) → Ensures (Kept m) (chunk_seek w k)
  unfolding chunk_seek
  chunk_seek-Within k =
      if-Ensures (Kept m) w.chunked _ _
        (λ e.
          if-Ensures (Kept m) (ltb (length w.chunk) k) _ _
            (λ f. record { mtu = h.mtu; short = h.short })
            (λ f. record { mtu = h.mtu; short = h.short }))
        (λ e. tt)

  pub bytes-Within : Ensures (λ r. length r ≤ m) (bytes w)
  unfolding bytes
  bytes-Within = if-Ensures (λ r. length r ≤ m) w.chunked _ _ (λ e. tt) (λ e. h.short)
