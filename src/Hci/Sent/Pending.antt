-- ===== src/Hci/Sent/Pending.antt =====
-- The queue of commands is a queue for each opcode.
use gatt.Prelude.{
  ℕ, ◌%◌, ◌≡◌, refl, ap, ◌∙◌, List, [], ◌∷◌, ◌++◌, true, false, Option, none, some, arith, ◌==◌,
  if◌then◌else◌, Bool-cases, inl, inr,
}
use gatt.Hci.Command.{CmdParam}
use gatt.Hci.Sent.{CmdPkt, enqueue, take_sent}

-- The commands with an opcode that wait, the first sent first.
abbrev pub pending : ℕ → List CmdPkt → List ℕ
pending op [] = []
pending op (p ∷ sent) =
    let rest = pending op sent in if p.op % 65536 == op then p.done ∷ rest else rest

abbrev pub head? : List ℕ → Option ℕ
head? [] = none
head? (x ∷ xs) = some x

abbrev pub tail : List ℕ → List ℕ
tail [] = []
tail (x ∷ xs) = xs

pending-append :
    (op : ℕ) (xs ys : List CmdPkt) → pending op (xs ++ ys) ≡ pending op xs ++ pending op ys
pending-append op [] ys = refl
pending-append op (x ∷ xs) ys = elim (Bool-cases (x.op % 65536 == op)) [
  | inl e ↦ rw e (ap (λ r. x.done ∷ r) (pending-append op xs ys))
  | inr e ↦ rw e (pending-append op xs ys)
]

pub take_sent-head? :
    (sent : List CmdPkt) (op : ℕ) → (take_sent sent op).done ≡ head? (pending op sent)
unfolding take_sent
take_sent-head? [] op = refl
take_sent-head? (p ∷ sent) op = elim (Bool-cases (p.op % 65536 == op)) [
  | inl e ↦ rw e refl
  | inr e ↦ rw e (take_sent-head? sent op)
]

same_queue : (a op k : ℕ) → (a == op) ≡ true → (a == k) ≡ (op == k)
same_queue a op k h = ground arith

pub take_sent-pending :
    (sent : List CmdPkt) (op k : ℕ)
    → pending k (take_sent sent op).sent
      ≡ (if op == k then tail (pending k sent) else pending k sent)
unfolding take_sent
take_sent-pending [] op k = ground arith
take_sent-pending (p ∷ sent) op k = elim (Bool-cases (p.op % 65536 == op)) [
  | inl e ↦ elim (Bool-cases (op == k)) [
    | inl f ↦ rw (e, f, same_queue (p.op % 65536) op k e ∙ f) refl
    | inr f ↦ rw (e, f, same_queue (p.op % 65536) op k e ∙ f) refl
  ]
  | inr e ↦ elim (Bool-cases (op == k)) [
    | inl f ↦
        let g : (p.op % 65536 == k) ≡ false = ground arith in
        let ih = take_sent-pending sent op k in rw (e, f, g) (rw f at ih)
    | inr f ↦
        let ih = take_sent-pending sent op k in
        let ih' : pending k (take_sent sent op).sent ≡ pending k sent = rw f at ih in
        elim (Bool-cases (p.op % 65536 == k)) [
          | inl g ↦ rw (e, f, g) (ap (λ r. p.done ∷ r) ih')
          | inr g ↦ rw (e, f, g) ih'
        ]
  ]
]

-- Send and the events of the controller, on the commands that wait for each opcode: a command joins
-- the end of the queue of its opcode and no other; an event for an opcode answers the first command of
-- that queue, takes it out, and leaves the other queues as they are.
pub queues :
    (sent : List CmdPkt) (c : CmdParam) (done op k : ℕ)
    → (pending k (enqueue sent c done)
        ≡ pending k sent ++ (if c.opcode % 65536 == k then done ∷ [] else []))
      × ((take_sent sent op).done ≡ head? (pending op sent))
      × (pending k (take_sent sent op).sent
          ≡ (if op == k then tail (pending k sent) else pending k sent))
unfolding enqueue
queues sent c done op k = (
  pending-append k sent (record { op = c.opcode; done = done } ∷ []),
  take_sent-head? sent op,
  take_sent-pending sent op k,
)
