-- ===== src/Central.antt =====
-- central_linux.go: the dispatch of a request to its handler.
pub mod State
pub mod Discovery
pub mod Read
pub mod Write
pub mod Dispatch
pub mod Requests
pub mod Responses
use gatt.Prelude.{
  ℕ, List, [], ◌∷◌, Option, none, some, Run, ok, panic, ◌>>=◌, Slice, slice_from, index, ◌==◌, ◌||◌,
  if◌then◌else◌,
}
use gatt.Att.{att_error_resp}
use gatt.Att.Op
use gatt.Att.ErrorCode
use gatt.Central.State.{Central}
use gatt.Central.Discovery.{handle_find_info, handle_find_by_type_value, handle_read_by_group}
use gatt.Central.Read.{handle_read_by_type, handle_read, handle_read_blob}
use gatt.Central.Write.{handle_mtu, handle_write}

-- A handler that leaves the connection alone.
abbrev pub answer : Central → Run (List ℕ) → Run (Option (List ℕ) × Central)
answer c m = do r ← m; ok (some r, c)

-- handleReq. `none` is a nil response.
pub handle_req : Central → Slice → Run (Option (List ℕ) × Central)
handle_req c b = do
  req_type ← index b.elems 0
  req ← slice_from b 1
  if req_type == Op.mtu_req
      then (do (r, c') ← handle_mtu c req; ok (some r, c'))
      else if req_type == Op.find_info_req
      then answer c (handle_find_info c req)
      else if req_type == Op.find_by_type_value_req
      then answer c (handle_find_by_type_value c req)
      else if req_type == Op.read_by_type_req
      then answer c (handle_read_by_type c req)
      else if req_type == Op.read_req
      then answer c (handle_read c req)
      else if req_type == Op.read_blob_req
      then answer c (handle_read_blob c req)
      else if req_type == Op.read_by_group_req
      then answer c (handle_read_by_group c req)
      else if req_type == Op.write_req || req_type == Op.write_cmd
      then handle_write c req_type req
      else ok (some (att_error_resp req_type 0x0000 ErrorCode.req_not_supp), c)
