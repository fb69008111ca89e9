-- ===== src/Hci/Command.antt =====
-- linux/cmd/cmd.go: commands to the controller, and how they are written.
pub mod Opcode
pub mod Host
pub mod LeAdvertising
pub mod LeConnection
pub mod LeControl
pub mod Any
pub mod Layout
pub mod Fields
use gatt.Prelude.{
  ℕ, ◌+◌, ◌-◌, ◌/◌, ◌%◌, List, [], ◌∷◌, ◌++◌, Bool, true, false, ◌&&◌, Run, ok, panic, ◌>>=◌,
  length, take, drop, replicate, leb, if◌then◌else◌,
}

-- What Marshal does to its buffer, in order: `o.Put…(b[at:], v)`, with the bytes of `v`, or
-- `copy(b[at:], a[:n])`.
pub data Write : Type 0 where
  put : ℕ → List ℕ → Write
  copy : ℕ → ℕ → List ℕ → Write

-- The interface CmdParam, with the writes of Marshal.
pub record CmdParam : Type 0 where
  pub opcode : ℕ
  pub len : ℕ
  pub writes : List Write

abbrev pub overwrite : ℕ → List ℕ → List ℕ → List ℕ
overwrite at x b = take at b ++ x ++ drop (at + length x) b

-- A put panics where the buffer is too short; a copy stops there.
unfoldable pub run_write : Write → List ℕ → Run (List ℕ)
run_write (put at x) b = if leb (at + length x) (length b) then ok (overwrite at x b) else panic
run_write (copy at n a) b =
    if leb at (length b) && leb n (length a)
    then ok (overwrite at (take (length b - at) (take n a)) b)
    else panic

unfoldable pub run_writes : List Write → List ℕ → Run (List ℕ)
run_writes [] b = ok b
run_writes (w ∷ ws) b = do b' ← run_write w b; run_writes ws b'

-- Marshal
unfoldable pub marshal : CmdParam → List ℕ → Run (List ℕ)
marshal c b = run_writes c.writes b

abbrev pub packet_type_command : ℕ
packet_type_command = 1

-- cmdPkt.Marshal
unfoldable pub packet : CmdParam → Run (List ℕ)
packet c = do
  b ← marshal c (replicate c.len 0)
  ok (packet_type_command ∷ c.opcode % 256 ∷ (c.opcode / 256 % 256) ∷ c.len % 256 ∷ b)
