-- ===== src/Link.antt =====
-- A client and a server joined: the client's requests go to the server's handleReq, and the client
-- takes a response as its request loop does.
pub mod LongRead
pub mod MtuExchange
pub mod Notification
use gatt.Prelude.{ℕ, List, [], ◌∷◌, Bool, Option, none, some, Run, ok, panic, ◌>>=◌, Slice, index}
use gatt.Central.{handle_req}
use gatt.Central.State.{Central}
use gatt.Client.Matching.{await_response}

abbrev pub responses : Option (List ℕ) → List (List ℕ)
responses none = []
responses (some r) = r ∷ []

-- sendReq over a connection whose other end is handleReq. `spare` is what the server's read buffer
-- holds behind the request.
unfoldable pub link : List ℕ → Central → List ℕ → Run (Option (List ℕ) × Central)
link spare c req = do
  (resp, c') ← handle_req c (record { elems = req; spare = spare })
  op ← index req 0
  x ← await_response op (responses resp)
  ok (x.response, c')
