-- ===== src/Hci/State/Demux.antt =====
-- linux/hci.go: the connections, each seen alone.
pub mod Steps
pub mod Run
pub mod Delivery
use gatt.Prelude.{
  ℕ, ◌≡◌, refl, ap, ◌∙◌, List, [], ◌∷◌, ◌++◌, map, Bool, true, false, Option, none, some, arith,
  drop, ◌==◌, ==_self, if◌then◌else◌, Bool-cases, inl, inr,
}
use gatt.Hci.L2cap.{AclData, unmarshal, receive_acl}
use gatt.Hci.Event.{header_code, disconnection_complete, le_connection_complete}
use gatt.Hci.Event.Code
use gatt.Hci.State.{
  Hci, Effect, command, acl, delivered, answered, accept_master, accept_slave, advertisement,
  lookup, delete, insert,
}
use gatt.Hci.State.Handled.{Laws}

-- What a packet of the controller is for the connection with a handle.
pub data Signal : Type 0 where
  opened : Signal
  disconnected : Signal
  received : AclData → Signal
  other : Signal

abbrev opening : ℕ → List ℕ → Signal
opening k b = elim (le_connection_complete b) [
  | none ↦ other
  | some ep ↦ if ep.connection_handle == k then opened else other
]

abbrev disconnecting : ℕ → List ℕ → Signal
disconnecting k b = elim (disconnection_complete b) [
  | none ↦ other
  | some ep ↦ if ep.connection_handle == k then disconnected else other
]

abbrev le_signal : ℕ → List ℕ → Signal
le_signal k [] = other
le_signal k (code ∷ b) = if code == Code.le_connection_complete then opening k (code ∷ b) else other

abbrev code_signal : ℕ → ℕ → List ℕ → Signal
code_signal k code b =
    if code == Code.le_meta
    then le_signal k b
    else if code == Code.disconnection_complete
    then disconnecting k b
    else other

abbrev event_signal : ℕ → List ℕ → Signal
event_signal k b = elim (header_code b) [ none ↦ other | some code ↦ code_signal k code (drop 2 b) ]

abbrev acl_signal : ℕ → List ℕ → Signal
acl_signal k b = elim (unmarshal b) [
  | none ↦ other
  | some a ↦ if a.attr == k then received a else other
]

abbrev pub signal : ℕ → List ℕ → Signal
signal k [] = other
signal k (t ∷ b) =
    if t == Code.packet_acl_data
    then acl_signal k b
    else if t == Code.packet_event
    then event_signal k b
    else other

-- One connection: its buffer while it is there, and the PDUs passed on to its reader.
pub record Channel : Type 0 where
  pub buf : Option (List ℕ)
  pub pdus : List (List ℕ)

abbrev pub channel_step : Option (List ℕ) → Signal → Channel
channel_step c opened = record { buf = some []; pdus = [] }
channel_step c disconnected = record { buf = none; pdus = [] }
channel_step none (received a) = record { buf = none; pdus = [] }
channel_step (some buf) (received a) =
    let r = receive_acl buf a in record { buf = some r.buf; pdus = r.pdus }
channel_step c other = record { buf = c; pdus = [] }

abbrev pub channel_run : ℕ → Option (List ℕ) → List (List ℕ) → Channel
channel_run k c [] = record { buf = c; pdus = [] }
channel_run k c (p ∷ ps) =
    let s = channel_step c (signal k p) in
    let t = channel_run k s.buf ps in record { buf = t.buf; pdus = s.pdus ++ t.pdus }

-- What the reader of a connection gets.
abbrev pub deliveries : ℕ → List Effect → List (List ℕ)
deliveries k [] = []
deliveries k (command c ∷ es) = deliveries k es
deliveries k (acl p ∷ es) = deliveries k es
deliveries k (delivered j p ∷ es) = let rest = deliveries k es in if j == k then p ∷ rest else rest
deliveries k (answered e ∷ es) = deliveries k es
deliveries k (accept_master pd ∷ es) = deliveries k es
deliveries k (accept_slave pd ∷ es) = deliveries k es
deliveries k (advertisement pd ∷ es) = deliveries k es

pub deliveries-append :
    (k : ℕ) (es fs : List Effect) → deliveries k (es ++ fs) ≡ deliveries k es ++ deliveries k fs
deliveries-append k [] fs = refl
deliveries-append k (command c ∷ es) fs = deliveries-append k es fs
deliveries-append k (acl p ∷ es) fs = deliveries-append k es fs
deliveries-append k (delivered j p ∷ es) fs = elim (Bool-cases (j == k)) [
  | inl e ↦ rw e (ap (λ r. p ∷ r) (deliveries-append k es fs))
  | inr e ↦ rw e (deliveries-append k es fs)
]
deliveries-append k (answered e ∷ es) fs = deliveries-append k es fs
deliveries-append k (accept_master pd ∷ es) fs = deliveries-append k es fs
deliveries-append k (accept_slave pd ∷ es) fs = deliveries-append k es fs
deliveries-append k (advertisement pd ∷ es) fs = deliveries-append k es fs

deliveries-acl : (k : ℕ) (ps : List (List ℕ)) → deliveries k (map acl ps) ≡ []
deliveries-acl k [] = refl
deliveries-acl k (p ∷ ps) = deliveries-acl k ps

pub deliveries-same :
    (j k : ℕ) (ps : List (List ℕ)) → (j == k) ≡ true → deliveries k (map (delivered j) ps) ≡ ps
deliveries-same j k [] e = refl
deliveries-same j k (p ∷ ps) e = rw e (ap (λ r. p ∷ r) (deliveries-same j k ps e))

pub deliveries-different :
    (j k : ℕ) (ps : List (List ℕ)) → (j == k) ≡ false → deliveries k (map (delivered j) ps) ≡ []
deliveries-different j k [] e = refl
deliveries-different j k (p ∷ ps) e = rw e (deliveries-different j k ps e)

-- A handler that neither changes the connections nor delivers anything.
abbrev pub Quiet : ℕ → Hci → Hci → List Effect → Type 0
Quiet k h h' es = (h'.conns ≡ h.conns) × (deliveries k es ≡ [])

pub Quiet-laws : (k : ℕ) → Laws (Quiet k)
Quiet-laws k = record {
  stays = λ h. (refl, refl);
  follows = λ h h' h'' es fs a b. (b.0 ∙ a.0, deliveries-append k es fs ∙ rw (a.1, b.1) refl);
  commands = λ h c. (refl, refl);
  answers = λ h e. (refl, refl);
  masters = λ h pd. (refl, refl);
  tokens = λ h n ps f. (refl, deliveries-acl k ps);
  locks = λ h free. (refl, refl);
  peers = λ h p pd free. ((refl, refl), (refl, refl), (refl, refl));
}

pub lookup-delete_same :
    (cs : List (ℕ × List ℕ)) (j k : ℕ) → (j == k) ≡ true → lookup (delete cs j) k ≡ none
lookup-delete_same [] j k e = refl
lookup-delete_same (c ∷ cs) j k e = elim (Bool-cases (c.0 == j)) [
  | inl f ↦ rw f (lookup-delete_same cs j k e)
  | inr f ↦ let g : (c.0 == k) ≡ false = ground arith in rw (f, g) (lookup-delete_same cs j k e)
]

pub lookup-delete_different :
    (cs : List (ℕ × List ℕ)) (j k : ℕ) → (j == k) ≡ false → lookup (delete cs j) k ≡ lookup cs k
lookup-delete_different [] j k e = refl
lookup-delete_different (c ∷ cs) j k e = elim (Bool-cases (c.0 == j)) [
  | inl f ↦
      let g : (c.0 == k) ≡ false = ground arith in rw (f, g) (lookup-delete_different cs j k e)
  | inr f ↦ elim (Bool-cases (c.0 == k)) [
    | inl g ↦ rw (f, g) refl
    | inr g ↦ rw (f, g) (lookup-delete_different cs j k e)
  ]
]
