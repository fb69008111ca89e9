-- ===== src/L2capWriter/Writes.antt =====
-- Writes outside a chunk: what a sequence of them leaves in the buffer, and the MTU bound.
use gatt.Prelude.{
  ◌<◌, true, le→leb, ℕ, ◌+◌, ◌-◌, ◌≤◌, ◌≡◌, refl, sym, List, [], ◌∷◌, ◌++◌, arith, append_assoc,
  append-nil, inl, inr, Run, ok, false, ◌>>=◌, length, length-take, take, leb, take_all,
  take_prefix, take-behind, Bool-cases, leb→le, le→ltb,
}
use gatt.L2capWriter.{L2capWriter, write_fit, write_byte_fit}
use mathlib.Core.List.{flatten}

-- A writer outside a chunk.
abbrev pub idle : ℕ → List ℕ → L2capWriter
idle m buf = record { mtu = m; buf = buf; chunk = []; chunked = false }

-- A write outside a chunk takes the prefix that fits, and reports whether that is all of it.
pub write_fit-idle :
    (m : ℕ) (buf b : List ℕ)
    → length buf ≤ m
    → write_fit (idle m buf) b
      ≡ ok (leb (length buf + length b) m, idle m (buf ++ take (m - length buf) b))
unfolding write_fit
write_fit-idle m buf b h = elim (Bool-cases (leb (length buf + length b) m)) [
  | inl fits ↦
      let small = leb→le _ _ fits in rw (fits, take_all (m - length buf) b (omega arith)) refl
  | inr over ↦ rw (over, le→ltb m (length buf) h) refl
]

-- A run of writes.
abbrev pub write_all : L2capWriter → List (List ℕ) → Run L2capWriter
write_all w [] = ok w
write_all w (b ∷ bs) = do (_, w') ← write_fit w b; write_all w' bs

-- Writes outside a chunk leave the first `mtu` bytes of their concatenation: a short write is
-- followed by empty ones, and no byte is skipped or written out of order. The buffer is within the
-- MTU before.
pub write_all-idle :
    (m : ℕ) (buf : List ℕ) (bs : List (List ℕ))
    → length buf ≤ m
    → write_all (idle m buf) bs ≡ ok (idle m (take m (buf ++ flatten bs)))
unfolding flatten
write_all-idle m buf [] h = rw (append-nil buf, take_all m buf h) refl
write_all-idle m buf (b ∷ bs) h =
    let cut = sym (take-behind m buf b h) in
    let room = length-take m (buf ++ b) in
    rw (write_fit-idle m buf b h, cut, write_all-idle m (take m (buf ++ b)) bs (omega arith))
      (rw (take_prefix m (buf ++ b) (flatten bs), append_assoc buf b (flatten bs)) refl)

-- One byte where there is room.
pub write_byte_fit-idle :
    (m : ℕ) (buf : List ℕ) (x : ℕ)
    → length buf < m
    → write_byte_fit (idle m buf) x ≡ ok (true, idle m (buf ++ (x ∷ [])))
unfolding write_byte_fit
write_byte_fit-idle m buf x h = rw (le→leb (length buf + 1) m (omega arith)) refl
