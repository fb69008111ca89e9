-- ===== src/Link/MtuExchange.antt =====
-- The MTU exchange between a client and the server.
use gatt.Prelude.{
  ℕ, ◌≤◌, ◌<◌, ◌≡◌, refl, List, [], ◌∷◌, ◌++◌, true, none, arith, ok, put_uint16, length, leb, ltb,
  le→leb, if◌then◌else◌,
}
use gatt.Att.{att_resp_for}
use gatt.Att.Op
use gatt.Central.State.{Central}
use gatt.Central.Write.{handle_mtu}
use gatt.Central.Discovery.Ranges.{bytes_of_uint16}
use gatt.Central.Dispatch.{handle_req-mtu}
use gatt.Client.Matching.{finish, accepts}
use gatt.Client.Matching.Accepted.{accepts_answer, await_response_accepted}
use gatt.Client.Reading.{set_mtu}
use gatt.Link.{link}
use Prim.Native.Nat.{min, max}

-- The MTU that the server takes when the client asks for `m`, and the one that the client keeps.
abbrev pub server_mtu : ℕ → ℕ
server_mtu m = max 23 (min 256 m)

abbrev pub client_mtu : ℕ → ℕ
client_mtu m = min m (server_mtu m)

-- The two tests of handleMTU keep the MTU within its bounds.
clamp_lem :
    (m : ℕ)
    → (if leb 256 (if ltb m 23 then 23 else m) then 256 else (if ltb m 23 then 23 else m))
      ≡ server_mtu m
clamp_lem m = ground arith

handle_mtu-server_mtu :
    (c : Central) (m : ℕ) (spare : List ℕ)
    → m < 65536
    → handle_mtu c (record { elems = put_uint16 m; spare = spare })
      ≡ ok (Op.mtu_resp ∷ put_uint16 (server_mtu m), record c { mtu = server_mtu m })
unfolding handle_mtu
handle_mtu-server_mtu c m spare small =
    rw (le→leb 2 (length (put_uint16 m ++ spare)) (omega arith))
      (rw (bytes_of_uint16 m small) (rw (clamp_lem m) refl))

-- The MTU exchange over a connection that joins the client's requests to handleReq: whatever 16-bit
-- MTU a client asks for and whatever both had before, it ends without an error; the server takes the
-- MTU asked for, kept within 23 and 256, and the client the smaller one of the MTU that it asked for
-- and the server's, so that the client's is at most the server's.
pub set_mtu-agreed :
    (spare : List ℕ) (c : Central) (kept m : ℕ)
    → m < 65536
    → (set_mtu (link spare) c kept m ≡ ok (none, client_mtu m, record c { mtu = server_mtu m }))
      × (23 ≤ server_mtu m)
      × (server_mtu m ≤ 256)
      × (client_mtu m ≤ server_mtu m)
unfolding set_mtu link att_resp_for finish
set_mtu-agreed spare c kept m small = (
  rw (handle_req-mtu c (put_uint16 m) spare) (
      rw (handle_mtu-server_mtu c m spare small) (
        rw (await_response_accepted _ _ [] taken)
          (rw (bytes_of_uint16 (server_mtu m) (omega arith)) (rw (smaller m) refl)))),
  omega arith,
  omega arith,
  omega arith,
)
  where
    taken : accepts Op.mtu_req (Op.mtu_resp ∷ put_uint16 (server_mtu m)) ≡ ok true
    taken = accepts_answer Op.mtu_req Op.mtu_resp (put_uint16 (server_mtu m)) refl

    smaller : (m : ℕ) → (if ltb (server_mtu m) m then server_mtu m else m) ≡ client_mtu m
    smaller m = ground arith
