-- ===== src/Client/Matching.antt =====
-- peripheral_linux.go: which response a request takes (loop), and how it is read (finish).
pub mod Accepted
use gatt.Prelude.{
  ℕ, ◌+◌, ◌%◌, ◌/◌, List, [], ◌∷◌, ◌++◌, Bool, true, false, Option, none, some, not, ◌&&◌, ◌||◌,
  Run, ok, panic, ◌>>=◌, index, ◌==◌, if◌then◌else◌,
}
use gatt.Att.{att_resp_for, att_error_resp}
use gatt.Att.Op
use gatt.Att.ErrorCode

-- `respOp == attRespFor[reqOp] || (respOp == attrOpError && r[1] == reqOp)`
pub accepts : ℕ → List ℕ → Run Bool
accepts req_op r = do
  resp_op ← index r 0
  if resp_op == att_resp_for req_op
      then ok true
      else if not (resp_op == Op.error)
      then ok false
      else do of_op ← index r 1; ok (of_op == req_op)

-- What the request loop takes for the response, of the PDUs that arrive in turn; the PDUs that it
-- does not take are answered by an error. `none`: no response arrives.
pub record Awaited : Type 0 where
  pub response : Option (List ℕ)
  pub refused : List (List ℕ)

refuse : List ℕ → Awaited → Run Awaited
refuse r x = do
  resp_op ← index r 0
  ok (record x { refused = att_error_resp resp_op 0x0000 ErrorCode.req_not_supp ∷ x.refused })

pub await_response : ℕ → List (List ℕ) → Run Awaited
await_response req_op [] = ok (record { response = none; refused = [] })
await_response req_op (r ∷ rs) = do
  taken ← accepts req_op r
  if taken
      then ok (record { response = some r; refused = [] })
      else do x ← await_response req_op rs; refuse r x

-- finish: whether the response is the error that ends the request, and the error code that it
-- reports, if any: Attribute Not Found is none.
unfoldable pub finish : ℕ → ℕ → List ℕ → Run (Bool × Option ℕ)
finish op h b = do
  kind ← index b 0
  if not (kind == Op.error) then ok (false, none) else do
    of_op ← index b 1
    low ← index b 2
    high ← index b 3
    code ← index b 4
    ok (
      of_op == op && (low == h % 256 && high == h / 256 % 256),
      if code == ErrorCode.attr_not_found then none else some code,
    )
