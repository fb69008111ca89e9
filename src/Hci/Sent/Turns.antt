-- ===== src/Hci/Sent/Turns.antt =====
-- linux/cmd/cmd.go, processCmdEvents: the command whose turn it is.
use gatt.Prelude.{
  ℕ, zero, suc, ◌%◌, ◌≡◌, refl, sym, ◌∙◌, List, [], ◌∷◌, Bool, true, false, Option, none, some,
  get_elem?, ◌==◌, ==_iff, if◌then◌else◌, Bool-cases, inl, inr, All,
}
use mathlib.Core.List.{Memᴰ}
use gatt.Hci.Sent.{
  CmdPkt, Answer, closed, completed, CmdEvent, Outcome, hand_over, take_sent, process_cmd_events,
}
use gatt.Hci.Sent.Pending.{pending, head?, tail, take_sent-head?, take_sent-pending}

-- The events for an opcode.
abbrev pub events_for : ℕ → List CmdEvent → List CmdEvent
events_for op [] = []
events_for op (e ∷ es) = let rest = events_for op es in if e.op == op then e ∷ rest else rest

get_elem?-zero : (ds : List ℕ) → get_elem? ds 0 ≡ head? ds
get_elem?-zero [] = refl
get_elem?-zero (x ∷ xs) = refl

get_elem?-suc : (ds : List ℕ) (i : ℕ) → get_elem? ds (suc i) ≡ get_elem? (tail ds) i
get_elem?-suc [] i = refl
get_elem?-suc (x ∷ xs) i = refl

take_sent-turn :
    (sent : List CmdPkt) (a op d : ℕ)
    → (a == op) ≡ true
    → get_elem? (pending op sent) 0 ≡ some d
    → (take_sent sent a).done ≡ some d
take_sent-turn sent a op d e h =
    rw ((==_iff a op).0 e) (take_sent-head? sent op ∙ sym (get_elem?-zero (pending op sent)) ∙ h)

take_sent-before :
    (sent : List CmdPkt) (a op i d : ℕ)
    → (a == op) ≡ true
    → get_elem? (pending op sent) (suc i) ≡ some d
    → get_elem? (pending op (take_sent sent a).sent) i ≡ some d
take_sent-before sent a op i d e h =
    rw (take_sent-pending sent a op, e) (sym (get_elem?-suc (pending op sent) i) ∙ h)

take_sent-other :
    (sent : List CmdPkt) (a op i d : ℕ)
    → (a == op) ≡ false
    → get_elem? (pending op sent) i ≡ some d
    → get_elem? (pending op (take_sent sent a).sent) i ≡ some d
take_sent-other sent a op i d e h = rw (take_sent-pending sent a op, e) h

module _ (heard : ℕ → Bool) where
  -- Each command in the queue has a Send that waits for it.
  abbrev pub IsHeard : CmdPkt → Type 0
  IsHeard p = heard p.done ≡ true

  -- The step of the loop, on what take_sent finds.
  abbrev step : Option ℕ → Answer → Outcome → Outcome
  step m a later = elim m [ none ↦ later | some d ↦ hand_over heard d a later ]

  take_sent-All :
      (sent : List CmdPkt) (op : ℕ) → All IsHeard sent → All IsHeard (take_sent sent op).sent
  unfolding take_sent
  take_sent-All [] op h = h
  take_sent-All (p ∷ sent) op h = elim (Bool-cases (p.op % 65536 == op)) [
    | inl e ↦ rw e h.1
    | inr e ↦ rw e (h.0, take_sent-All sent op h.1)
  ]

  take_sent-IsHeard :
      (sent : List CmdPkt) (op d : ℕ)
      → All IsHeard sent
      → (take_sent sent op).done ≡ some d
      → heard d ≡ true
  unfolding take_sent
  take_sent-IsHeard [] op d h e = cc
  take_sent-IsHeard (p ∷ sent) op d h e = elim (Bool-cases (p.op % 65536 == op)) [
    | inl f ↦ let same : some p.done ≡ some d = rw f at e in let k = h.0 in cc
    | inr f ↦ take_sent-IsHeard sent op d h.1 (rw f at e)
  ]

  step-running :
      (m : Option ℕ) (a : Answer) (later : Outcome)
      → ((d : ℕ) → m ≡ some d → heard d ≡ true)
      → later.stuck ≡ false
      → (step m a later).stuck ≡ false
  unfolding hand_over
  step-running none a later h r = r
  step-running (some d) closed later h r = rw (h d refl) r
  step-running (some d) (completed b) later h r = rw (h d refl) r

  step-later :
      {x : ℕ × Answer} (m : Option ℕ) (a : Answer) (later : Outcome)
      → ((d : ℕ) → m ≡ some d → heard d ≡ true)
      → Memᴰ x later.received
      → Memᴰ x (step m a later).received
  unfolding hand_over
  step-later none a later h r = r
  step-later (some d) closed later h r = rw (h d refl) (Memᴰ.tail r)
  step-later (some d) (completed b) later h r = rw (h d refl) (Memᴰ.tail r)

  step-now :
      (m : Option ℕ) (d : ℕ) (a b : Answer) (later : Outcome)
      → heard d ≡ true
      → m ≡ some d
      → b ≡ a
      → Memᴰ (d, b) (step m a later).received
  unfolding hand_over
  step-now none d a b later h e f = cc
  step-now (some c) d closed b later h e f = let k : heard c ≡ true = cc in rw k (Memᴰ.head cc)
  step-now (some c) d (completed v) b later h e f =
      let k : heard c ≡ true = cc in rw k (Memᴰ.head cc)

  process_cmd_events-running :
      (sent : List CmdPkt) (es : List CmdEvent)
      → All IsHeard sent
      → (process_cmd_events heard sent es).stuck ≡ false
  unfolding process_cmd_events
  process_cmd_events-running sent [] h = refl
  process_cmd_events-running sent (x ∷ es) h =
      step-running (take_sent sent x.op).done x.answer _ (λ d. take_sent-IsHeard sent x.op d h)
        (process_cmd_events-running (take_sent sent x.op).sent es (take_sent-All sent x.op h))

  process_cmd_events-received :
      (sent : List CmdPkt) (es : List CmdEvent) (op i d : ℕ) (e : CmdEvent)
      → All IsHeard sent
      → get_elem? (pending op sent) i ≡ some d
      → get_elem? (events_for op es) i ≡ some e
      → Memᴰ (d, e.answer) (process_cmd_events heard sent es).received
  unfolding process_cmd_events
  process_cmd_events-received sent [] op i d e w h k = cc
  process_cmd_events-received sent (x ∷ es) op zero d e w h k =
      let m = take_sent sent x.op in
      let known : (c : ℕ) → m.done ≡ some c → heard c ≡ true =
        λ c. take_sent-IsHeard sent x.op c w in
      elim (Bool-cases (x.op == op)) [
        | inl f ↦
            let same : some x ≡ some e = rw f at k in
            let first = take_sent-turn sent x.op op d f h in
            step-now m.done d x.answer e.answer _ (known d first) first cc
        | inr f ↦ step-later m.done x.answer _ known (
            process_cmd_events-received m.sent es op zero d e (take_sent-All sent x.op w)
              (take_sent-other sent x.op op zero d f h) (rw f at k))
      ]
  process_cmd_events-received sent (x ∷ es) op (suc i) d e w h k =
      let m = take_sent sent x.op in
      let rest = take_sent-All sent x.op w in
      step-later m.done x.answer _ (λ c. take_sent-IsHeard sent x.op c w)
        (elim (Bool-cases (x.op == op)) [
          | inl f ↦
              process_cmd_events-received m.sent es op i d e rest
                (take_sent-before sent x.op op i d f h) (rw f at k)
          | inr f ↦
              process_cmd_events-received m.sent es op (suc i) d e rest
                (take_sent-other sent x.op op (suc i) d f h) (rw f at k)
        ])

  -- Where every command in the queue has a Send that waits for it, the loop is never blocked, and every
  -- command is answered when its turn comes: the command at place `i` of the queue of its opcode
  -- receives the answer of the event at place `i` among the events for this opcode, whatever other
  -- events come between.
  pub process_cmd_events-answers :
      (sent : List CmdPkt) (es : List CmdEvent) (op i d : ℕ) (e : CmdEvent)
      → All IsHeard sent
      → get_elem? (pending op sent) i ≡ some d
      → get_elem? (events_for op es) i ≡ some e
      → ((process_cmd_events heard sent es).stuck ≡ false)
        × Memᴰ (d, e.answer) (process_cmd_events heard sent es).received
  process_cmd_events-answers sent es op i d e w h k =
      (process_cmd_events-running sent es w, process_cmd_events-received sent es op i d e w h k)

  step-stuck :
      (m : Option ℕ) (a : Answer) (later : Outcome)
      → later.stuck ≡ true
      → (step m a later).stuck ≡ true
  unfolding hand_over
  step-stuck none a later r = r
  step-stuck (some d) closed later r = elim (Bool-cases (heard d)) [
    | inl e ↦ rw e r
    | inr e ↦ rw e r
  ]
  step-stuck (some d) (completed b) later r = elim (Bool-cases (heard d)) [
    | inl e ↦ rw e r
    | inr e ↦ rw e refl
  ]

  step-unheard :
      (m : Option ℕ) (d : ℕ) (a : Answer) (b : List ℕ) (later : Outcome)
      → m ≡ some d
      → heard d ≡ false
      → a ≡ completed b
      → (step m a later).stuck ≡ true
  unfolding hand_over
  step-unheard none d a b later e h f = cc
  step-unheard (some c) d a b later e h f = let k : heard c ≡ false = cc in rw f (rw k refl)

  -- A command that Send has left behind, on a write error or at the end of its context, blocks the loop
  -- for ever when its turn comes: that is, if it is at place `i` of the queue of its opcode, and the
  -- event at place `i` among those for this opcode is a CommandComplete, whatever other commands and
  -- events there are.
  pub process_cmd_events-stuck :
      (sent : List CmdPkt) (es : List CmdEvent) (op i d : ℕ) (e : CmdEvent) (b : List ℕ)
      → heard d ≡ false
      → e.answer ≡ completed b
      → get_elem? (pending op sent) i ≡ some d
      → get_elem? (events_for op es) i ≡ some e
      → (process_cmd_events heard sent es).stuck ≡ true
  unfolding process_cmd_events
  process_cmd_events-stuck sent [] op i d e b u a h k = cc
  process_cmd_events-stuck sent (x ∷ es) op zero d e b u a h k = elim (Bool-cases (x.op == op)) [
    | inl f ↦
        let same : some x ≡ some e = rw f at k in
        let answer : x.answer ≡ completed b = cc in
        step-unheard (take_sent sent x.op).done d x.answer b _ (take_sent-turn sent x.op op d f h) u
          answer
    | inr f ↦ step-stuck (take_sent sent x.op).done x.answer _ (
        process_cmd_events-stuck (take_sent sent x.op).sent es op zero d e b u a
          (take_sent-other sent x.op op zero d f h) (rw f at k))
  ]
  process_cmd_events-stuck sent (x ∷ es) op (suc i) d e b u a h k = elim (Bool-cases (x.op == op)) [
    | inl f ↦ step-stuck (take_sent sent x.op).done x.answer _ (
        process_cmd_events-stuck (take_sent sent x.op).sent es op i d e b u a
          (take_sent-before sent x.op op i d f h) (rw f at k))
    | inr f ↦ step-stuck (take_sent sent x.op).done x.answer _ (
        process_cmd_events-stuck (take_sent sent x.op).sent es op (suc i) d e b u a
          (take_sent-other sent x.op op (suc i) d f h) (rw f at k))
  ]
