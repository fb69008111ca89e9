-- ===== src/L2capWriter.antt =====
-- l2cap_writer_linux.go: the writer that assembles an ATT response of at most `mtu` bytes.
pub mod Writes
pub mod Chunks
pub mod Within
use gatt.Prelude.{ℕ, ◌+◌, ◌-◌, ◌≤◌, ◌<◌, ◌≡◌, List, [], ◌∷◌, ◌++◌, Bool, true, false}
use gatt.Prelude.{Run, ok, panic, length, take, drop, ltb, leb, put_uint16, if◌then◌else◌}
use gatt.Uuid.{Uuid}

-- The Go field `b` is `buf`. A nil `chunk` and an empty one are one list here: no code tells them
-- apart but the allocation in Chunk.
pub record L2capWriter : Type 0 where
  pub mtu : ℕ
  pub buf : List ℕ
  pub chunk : List ℕ
  pub chunked : Bool

unfoldable pub new_writer : ℕ → L2capWriter
new_writer mtu = record { mtu = mtu; buf = []; chunk = []; chunked = false }

-- Chunk
unfoldable pub start_chunk : L2capWriter → Run L2capWriter
start_chunk w = if w.chunked then panic else ok (record w { chunked = true })

unfoldable pub commit : L2capWriter → Run (Bool × L2capWriter)
commit w =
    if w.chunked
    then (if leb (length w.buf + length w.chunk) w.mtu
        then ok (true, record w { buf = w.buf ++ w.chunk; chunk = []; chunked = false })
        else ok (false, record w { chunk = []; chunked = false }))
    else panic

-- `writeable` is negative, and the slice expression panics, where the buffer is past the MTU.
unfoldable pub commit_fit : L2capWriter → Run L2capWriter
commit_fit w =
    if w.chunked
    then (if ltb w.mtu (length w.buf)
        then panic
        else (let avail = w.mtu - length w.buf in
            let writeable = if ltb (length w.chunk) avail then length w.chunk else avail in
            ok (record w { buf = w.buf ++ take writeable w.chunk; chunk = []; chunked = false })))
    else panic

unfoldable pub write_fit : L2capWriter → List ℕ → Run (Bool × L2capWriter)
write_fit w b =
    if w.chunked
    then ok (true, record w { chunk = w.chunk ++ b })
    else (if leb (length w.buf + length b) w.mtu
        then ok (true, record w { buf = w.buf ++ b })
        else (if ltb w.mtu (length w.buf)
            then panic
            else ok (false, record w { buf = w.buf ++ take (w.mtu - length w.buf) b })))

unfoldable pub write_byte_fit : L2capWriter → ℕ → Run (Bool × L2capWriter)
unfolding write_fit
write_byte_fit w b = write_fit w (b ∷ [])

unfoldable pub write_uint16_fit : L2capWriter → ℕ → Run (Bool × L2capWriter)
unfolding write_fit
write_uint16_fit w v = write_fit w (put_uint16 v)

unfoldable pub write_uuid_fit : L2capWriter → Uuid → Run (Bool × L2capWriter)
unfolding write_fit
write_uuid_fit w u = write_fit w u.b

-- `avail` is `mtu - len(b) - pad` in Go's signed integers.
unfoldable pub writeable : L2capWriter → ℕ → List ℕ → ℕ
writeable w pad b =
    if w.chunked
    then length b
    else (if ltb (length w.buf + pad + length b) w.mtu
        then length b
        else (if ltb w.mtu (length w.buf + pad) then 0 else w.mtu - length w.buf - pad))

unfoldable pub chunk_seek : L2capWriter → ℕ → Run (Bool × L2capWriter)
chunk_seek w offset =
    if w.chunked
    then (if ltb (length w.chunk) offset
        then ok (false, record w { chunk = [] })
        else ok (true, record w { chunk = drop offset w.chunk }))
    else panic

-- Bytes
unfoldable pub bytes : L2capWriter → Run (List ℕ)
bytes w = if w.chunked then panic else ok w.buf
