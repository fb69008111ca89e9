-- ===== src/L2capWriter/Chunks.antt =====
-- Chunks: a chunk is written whole or not at all by Commit, and cut to the room left by CommitFit.
-- `pack` is the specification of the loops that write one entry to a chunk until one does not fit.
use gatt.Prelude.{
  append_assoc, append-nil, sym, leb→le, le→leb, false, ℕ, ◌+◌, ◌-◌, ◌≤◌, ◌≡◌, refl, List, [], ◌∷◌,
  ◌++◌, true, arith, inl, inr, ok, length, length-append, take, drop, ltb, leb, if◌then◌else◌,
  take_all, Bool-cases, ltb→lt, le→ltb,
}
use gatt.L2capWriter.{L2capWriter, commit, commit_fit, chunk_seek, write_fit, start_chunk}
use gatt.L2capWriter.Writes.{idle}

-- A writer inside a chunk.
abbrev pub filling : ℕ → List ℕ → List ℕ → L2capWriter
filling m buf c = record { mtu = m; buf = buf; chunk = c; chunked = true }

pub start_chunk-idle : (m : ℕ) (buf : List ℕ) → start_chunk (idle m buf) ≡ ok (filling m buf [])
unfolding start_chunk
start_chunk-idle m buf = refl

pub write_fit-filling :
    (m : ℕ) (buf c b : List ℕ) → write_fit (filling m buf c) b ≡ ok (true, filling m buf (c ++ b))
unfolding write_fit
write_fit-filling m buf c b = refl

pub commit-filling :
    (m : ℕ) (buf c : List ℕ)
    → commit (filling m buf c)
      ≡ ok (
        leb (length buf + length c) m,
        idle m (if leb (length buf + length c) m then buf ++ c else buf),
      )
unfolding commit
commit-filling m buf c = elim (Bool-cases (leb (length buf + length c) m)) [
  | inl e ↦ rw e refl
  | inr e ↦ rw e refl
]

-- CommitFit appends the part of the chunk that the room left allows.
pub commit_fit-filling :
    (m : ℕ) (buf c : List ℕ)
    → length buf ≤ m
    → commit_fit (filling m buf c) ≡ ok (idle m (buf ++ take (m - length buf) c))
unfolding commit_fit
commit_fit-filling m buf c h =
    rw (le→ltb m (length buf) h) (elim (Bool-cases (ltb (length c) (m - length buf))) [
      | inl e ↦
          let small = ltb→lt _ _ e in
          rw (e, take_all (length c) c (omega arith), take_all (m - length buf) c (omega arith))
            refl
      | inr e ↦ rw e refl
    ])

pub chunk_seek-filling :
    (m : ℕ) (buf c : List ℕ) (k : ℕ)
    → chunk_seek (filling m buf c) k
      ≡ ok (leb k (length c), filling m buf (if leb k (length c) then drop k c else []))
unfolding chunk_seek
chunk_seek-filling m buf c k = ground arith

-- The entries of `es`, whole and in order, up to the first that does not fit in `room` bytes.
abbrev pub pack : ℕ → List (List ℕ) → List ℕ
pack room [] = []
pack room (e ∷ es) = if leb (length e) room then e ++ pack (room - length e) es else []

pub length-pack : (room : ℕ) (es : List (List ℕ)) → length (pack room es) ≤ room
length-pack room [] = omega arith
length-pack room (e ∷ es) =
    ground (arith, length-append e (pack (room - length e) es), length-pack (room - length e) es)

-- One round of such a loop: the entry fits, and joins the buffer; or it does not, and the loop ends.
pub pack_fits :
    (m : ℕ) (buf e : List ℕ) (es : List (List ℕ))
    → leb (length buf + length e) m ≡ true
    → buf ++ pack (m - length buf) (e ∷ es) ≡ (buf ++ e) ++ pack (m - length (buf ++ e)) es
pack_fits m buf e es h =
    let fits = leb→le _ _ h in
    let room : m - length (buf ++ e) ≡ m - length buf - length e =
      omega (arith, length-append buf e) in
    rw (room, le→leb (length e) (m - length buf) (omega arith))
      (sym (append_assoc buf e (pack (m - length buf - length e) es)))

pub pack_over :
    (m : ℕ) (buf e : List ℕ) (es : List (List ℕ))
    → length buf ≤ m
    → leb (length buf + length e) m ≡ false
    → buf ++ pack (m - length buf) (e ∷ es) ≡ buf
pack_over m buf e es h k =
    let over : leb (length e) (m - length buf) ≡ false = ground arith in rw over (append-nil buf)
