-- ===== src/Hci/State/Demux/Delivery.antt =====
-- linux/hci.go and linux/l2cap.go: a PDU written at the other side, among packets for others.
use gatt.Prelude.{ℕ, ◌≡◌, refl, ap, ◌∙◌, List, [], ◌∷◌, ◌++◌, some}
use gatt.Hci.L2cap.{AclData, receive_acl, receive_all, write}
use gatt.Hci.L2cap.Loopback.{acl_packets, Fits, receive_all-write}
use gatt.Hci.Command.{CmdParam}
use gatt.Hci.State.{Hci, returned, lookup}
use gatt.Hci.State.MainLoop.{main_loop}
use gatt.Hci.State.Demux.{received, other, signal, channel_run, deliveries}
use gatt.Hci.State.Demux.Run.{main_loop-channel_run}

-- Packets of the controller in which those for the connection with handle `k` are these packets of
-- data, in this order, among any for others.
pub data Interleaved (k : ℕ) : List AclData → List (List ℕ) → Type 0 where
  nothing : Interleaved k [] []
  ours :
      (a : AclData) (p : List ℕ) {as' : List AclData} {ps : List (List ℕ)}
      → signal k p ≡ received a
      → Interleaved k as' ps
      → Interleaved k (a ∷ as') (p ∷ ps)
  theirs :
      (p : List ℕ) {as' : List AclData} {ps : List (List ℕ)}
      → signal k p ≡ other
      → Interleaved k as' ps
      → Interleaved k as' (p ∷ ps)

channel_run-Interleaved :
    (k : ℕ) (buf : List ℕ) {as' : List AclData} {ps : List (List ℕ)}
    → Interleaved k as' ps
    → (channel_run k (some buf) ps).pdus ≡ (receive_all buf as').pdus
unfolding receive_all
channel_run-Interleaved k buf nothing = refl
channel_run-Interleaved k buf (ours a p e i) =
    rw e (
      ap (λ x. (receive_acl buf a).pdus ++ x) (channel_run-Interleaved k (receive_acl buf a).buf i))
channel_run-Interleaved k buf (theirs p e i) = rw e (channel_run-Interleaved k buf i)

-- The packets that conn.write sends at the other side for a payload, as its parameters allow, arrive
-- for a connection that is there, in their order but among any packets for others. mainLoop, where it
-- does not panic, passes exactly this payload on to the reader of this connection, whatever its
-- reassembly buffer held.
pub main_loop-write :
    (controller : CmdParam → List ℕ) (h : Hci) (k s attr cid : ℕ) (b buf : List ℕ)
    (ps : List (List ℕ))
    → Fits s attr cid b
    → lookup h.conns k ≡ some buf
    → Interleaved k (acl_packets (write s attr cid b)) ps
    → (main_loop controller h ps).ended ≡ returned
    → deliveries k (main_loop controller h ps).effects ≡ b ∷ []
main_loop-write controller h k s attr cid b buf ps f there i r =
    (main_loop-channel_run k controller h ps r).1
    ∙ rw there
        (channel_run-Interleaved k buf i ∙ ap (λ x. x.pdus) (receive_all-write s attr cid b buf f))
