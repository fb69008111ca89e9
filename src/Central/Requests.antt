-- ===== src/Central/Requests.antt =====
-- Every request leaves the map of notifiers and the running notifiers together.
use gatt.Prelude.{
  List, some, Run, ok, ◌>>=◌, Slice, slice_from, index, Ensures, Ensures-bind, Ensures-any, ℕ, ◌==◌,
  ◌||◌, if◌then◌else◌, Bool-cases, inl, inr,
}
use gatt.Central.State.{Central}
use gatt.Central.State.Live.{Live}
use gatt.Att.{att_error_resp}
use gatt.Att.Op
use gatt.Att.ErrorCode
use gatt.Central.Discovery.{handle_find_info, handle_find_by_type_value, handle_read_by_group}
use gatt.Central.Read.{handle_read_by_type, handle_read, handle_read_blob}
use gatt.Central.Write.{handle_mtu, handle_write}
use gatt.Central.Write.Keeps.{LeavesLive, handle_write-Live, handle_mtu-Live}
use gatt.Central.{answer, handle_req}

-- handleReq, on every PDU, from a state in which the map of notifiers leads to exactly the running
-- ones: if it does not panic, the state that it leaves is like that too.
pub handle_req-Live : (c : Central) (b : Slice) → Live c → Ensures LeavesLive (handle_req c b)
unfolding handle_req
handle_req-Live c b l =
    Ensures-bind LeavesLive (index b.elems 0) _ (Ensures-any (index b.elems 0)) (λ req_type _.
      Ensures-bind LeavesLive (slice_from b 1) _ (Ensures-any (slice_from b 1))
        (λ req _. dispatch req_type req))
  where
    kept : (m : Run (List ℕ)) → Ensures LeavesLive (answer c m)
    kept m = Ensures-bind LeavesLive m _ (Ensures-any m) (λ _ _. l)

    mtu : (req : Slice) → Ensures LeavesLive (handle_mtu c req >>= λ r. ok (some r.0, r.1))
    mtu req =
        Ensures-bind {P = λ r. Live r.1} LeavesLive (handle_mtu c req) _ (handle_mtu-Live c l req)
          (λ r k. k)

    dispatch :
        (t : ℕ) (req : Slice)
        → Ensures LeavesLive (
            if t == Op.mtu_req
            then (do (r, c') ← handle_mtu c req; ok (some r, c'))
            else if t == Op.find_info_req
            then answer c (handle_find_info c req)
            else if t == Op.find_by_type_value_req
            then answer c (handle_find_by_type_value c req)
            else if t == Op.read_by_type_req
            then answer c (handle_read_by_type c req)
            else if t == Op.read_req
            then answer c (handle_read c req)
            else if t == Op.read_blob_req
            then answer c (handle_read_blob c req)
            else if t == Op.read_by_group_req
            then answer c (handle_read_by_group c req)
            else if t == Op.write_req || t == Op.write_cmd
            then handle_write c t req
            else ok (some (att_error_resp t 0x0000 ErrorCode.req_not_supp), c))
    dispatch t req = elim (Bool-cases (t == Op.mtu_req)) [
      | inl is ↦ rw is (mtu req)
      | inr other ↦ rw other (elim (Bool-cases (t == Op.find_info_req)) [
        | inl is ↦ rw is (kept (handle_find_info c req))
        | inr other ↦ rw other (elim (Bool-cases (t == Op.find_by_type_value_req)) [
          | inl is ↦ rw is (kept (handle_find_by_type_value c req))
          | inr other ↦ rw other (elim (Bool-cases (t == Op.read_by_type_req)) [
            | inl is ↦ rw is (kept (handle_read_by_type c req))
            | inr other ↦ rw other (elim (Bool-cases (t == Op.read_req)) [
              | inl is ↦ rw is (kept (handle_read c req))
              | inr other ↦ rw other (elim (Bool-cases (t == Op.read_blob_req)) [
                | inl is ↦ rw is (kept (handle_read_blob c req))
                | inr other ↦ rw other (elim (Bool-cases (t == Op.read_by_group_req)) [
                  | inl is ↦ rw is (kept (handle_read_by_group c req))
                  | inr other ↦
                      rw other (elim (Bool-cases (t == Op.write_req || t == Op.write_cmd)) [
                        | inl is ↦ rw is (handle_write-Live c l t req)
                        | inr other ↦ rw other l
                      ])
                ])
              ])
            ])
          ])
        ])
      ])
    ]
