-- ===== src/Hci/State/Lockout.antt =====
-- linux/hci.go: the mutex of the list of peers, which handleConnection leaves locked for an unknown
-- peer.
use gatt.Prelude.{
  ℕ, ◌≡◌, refl, List, [], ◌∷◌, ◌++◌, map, true, false, none, ◌==◌, Bool-cases, inl, inr,
}
use gatt.Hci.Command.{CmdParam}
use gatt.Hci.State.{
  Hci, Effect, command, acl, delivered, answered, accept_master, accept_slave, advertisement, find,
}
use gatt.Hci.Event.{LeConnectionComplete}
use gatt.Hci.State.Handlers.{accept_peer, accept}
use gatt.Hci.State.MainLoop.{main_loop}
use gatt.Hci.State.Handled.{Laws}
use gatt.Hci.State.Handled.Loop.{main_loop-Holds}

-- The effects that tell the application of a peripheral.
abbrev pub announced : List Effect → List Effect
announced [] = []
announced (command c ∷ es) = announced es
announced (acl p ∷ es) = announced es
announced (delivered k p ∷ es) = announced es
announced (answered e ∷ es) = announced es
announced (accept_master pd ∷ es) = announced es
announced (accept_slave pd ∷ es) = accept_slave pd ∷ announced es
announced (advertisement pd ∷ es) = advertisement pd ∷ announced es

abbrev Locked : Hci → Hci → List Effect → Type 0
Locked h h' es = h.plist_locked ≡ true → (h'.plist_locked ≡ true) × (announced es ≡ [])

announced-append :
    (es fs : List Effect) → announced es ≡ [] → announced fs ≡ [] → announced (es ++ fs) ≡ []
announced-append [] fs a b = b
announced-append (command c ∷ es) fs a b = announced-append es fs a b
announced-append (acl p ∷ es) fs a b = announced-append es fs a b
announced-append (delivered k p ∷ es) fs a b = announced-append es fs a b
announced-append (answered e ∷ es) fs a b = announced-append es fs a b
announced-append (accept_master pd ∷ es) fs a b = announced-append es fs a b
announced-append (accept_slave pd ∷ es) fs a b = cc
announced-append (advertisement pd ∷ es) fs a b = cc

announced-acl : (ps : List (List ℕ)) → announced (map acl ps) ≡ []
announced-acl [] = refl
announced-acl (p ∷ ps) = announced-acl ps

announced-delivered : (k : ℕ) (ps : List (List ℕ)) → announced (map (delivered k) ps) ≡ []
announced-delivered k [] = refl
announced-delivered k (p ∷ ps) = announced-delivered k ps

Locked-laws : Laws Locked
Locked-laws = record {
  stays = λ h k. (k, refl);
  follows = λ h h' h'' es fs a b k. ((b (a k).0).0, announced-append es fs (a k).1 (b (a k).0).1);
  commands = λ h c k. (k, refl);
  answers = λ h e k. (k, refl);
  masters = λ h pd k. (k, refl);
  tokens = λ h n ps f k. (k, announced-acl ps);
  locks = λ h free k. (refl, refl);
  peers = λ h p pd free. (λ k. (k, refl), λ k. cc, λ k. cc);
}

-- After handleConnection has accepted a connection, not as a slave, of a peer that was never
-- advertised, with the mutex of the list of peers free or not: whatever packets mainLoop handles from
-- then on, and whatever the controller responds, no handler of the application is told of an
-- advertisement or of a connection to a peripheral again.
pub lockout :
    (controller : CmdParam → List ℕ) (h : Hci) (ep : LeConnectionComplete) (ps : List (List ℕ))
    → (ep.role == 1) ≡ false
    → find h.plist ep.peer_address ≡ none
    → announced (main_loop controller (accept h ep).hci ps).effects ≡ []
unfolding accept accept_peer
lockout controller h ep ps role unknown =
    ((main_loop-Holds Locked Locked-laws (λ h cs k pdus a. (a, announced-delivered k pdus))
        controller _ ps).holds
      (elim (Bool-cases h.plist_locked) [
        | inl l ↦ rw (role, l) refl
        | inr l ↦ rw (role, l, unknown) refl
      ])).1
