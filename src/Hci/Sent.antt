-- ===== src/Hci/Sent.antt =====
-- linux/cmd/cmd.go, Cmd: the commands that wait for the controller, and the events that answer them.
pub mod Pending
pub mod Turns
use gatt.Prelude.{
  ℕ, zero, suc, ◌%◌, ◌≡◌, refl, List, [], ◌∷◌, ◌++◌, Bool, true, false, Option, none, some, Run, ok,
  panic, ◌>>=◌, ◌==◌, if◌then◌else◌,
}
use gatt.Hci.Command.{CmdParam}

-- A cmdPkt in the queue: its opcode, and a number that stands for its channel `done`.
pub record CmdPkt : Type 0 where
  pub op : ℕ
  pub done : ℕ

-- What arrives on `done`: it is closed for a CommandStatus, and receives the return parameters of a
-- CommandComplete. `response` is what Send then returns: a closed channel gives the nil slice.
pub data Answer : Type 0 where
  closed : Answer
  completed : List ℕ → Answer

unfoldable pub response : Answer → List ℕ
response closed = []
response (completed b) = b

-- Send puts the command behind the others before it writes it.
unfoldable pub enqueue : List CmdPkt → CmdParam → ℕ → List CmdPkt
enqueue sent c done = sent ++ (record { op = c.opcode; done = done } ∷ [])

-- The loop of processCmdEvents over `sent`: the first command with the opcode, and the others.
pub record Matched : Type 0 where
  pub done : Option ℕ
  pub sent : List CmdPkt

unfoldable pub take_sent : List CmdPkt → ℕ → Matched
take_sent [] op = record { done = none; sent = [] }
take_sent (p ∷ sent) op =
    let rest = take_sent sent op in
    if p.op % 65536 == op
    then record { done = some p.done; sent = sent }
    else record { done = rest.done; sent = p ∷ rest.sent }

-- An event that processCmdEvents takes: the opcode and the answer.
pub record CmdEvent : Type 0 where
  pub op : ℕ
  pub answer : Answer

-- What Send and the loop have done: the answers received, each with its `done`, and whether the loop
-- is blocked for ever.
pub record Outcome : Type 0 where
  pub received : List (ℕ × Answer)
  pub stuck : Bool

-- The answer to the command with a `done`, before what the later events do. Closing `done` never
-- blocks; a send on it blocks where no Send receives from it any more, since it has no buffer.
unfoldable pub hand_over : (ℕ → Bool) → ℕ → Answer → Outcome → Outcome
hand_over heard d closed later =
    if heard d then record later { received = (d, closed) ∷ later.received } else later
hand_over heard d (completed b) later =
    if heard d
    then record later { received = (d, completed b) ∷ later.received }
    else record { received = []; stuck = true }

-- The loop on the events. `heard` says of a `done` whether the Send that made it waits for it when its
-- turn comes: one that left on a write error or at the end of its context has left its command in
-- `sent`. The event of no command is dropped.
unfoldable pub process_cmd_events : (ℕ → Bool) → List CmdPkt → List CmdEvent → Outcome
process_cmd_events heard sent [] = record { received = []; stuck = false }
process_cmd_events heard sent (e ∷ es) =
    let m = take_sent sent e.op in
    let later = process_cmd_events heard m.sent es in
    elim m.done [ none ↦ later | some d ↦ hand_over heard d e.answer later ]

unfoldable pub contains : List ℕ → ℕ → Bool
contains [] x = false
contains (y ∷ ys) x = if y == x then true else contains ys x

-- SendAndCheckResp behind Send: whether it returns no error. `resp[0:1]` panics on the nil slice.
unfoldable pub check_resp : List ℕ → List ℕ → Run Bool
check_resp [] resp = ok true
check_resp (x ∷ exp) [] = panic
check_resp (x ∷ exp) (s ∷ resp) = ok (contains (x ∷ exp) s)
