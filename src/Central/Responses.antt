-- ===== src/Central/Responses.antt =====
-- central_linux.go: every response keeps within the MTU.
use gatt.Prelude.{
  ℕ, ◌≤◌, refl, List, Run, arith, Slice, slice_from, index, Ensures, Ensures-bind, Ensures-any,
  ◌==◌, ◌||◌,
}
use gatt.L2capWriter.Within.{if-Ensures}
use gatt.Att.Op
use gatt.Att.ErrorCode
use gatt.Central.State.{Central}
use gatt.Central.Discovery.{handle_find_info, handle_find_by_type_value, handle_read_by_group}
use gatt.Central.Discovery.Within.{Short, handle_find_info-Short, handle_find_by_type_value-Short}
use gatt.Central.Discovery.Within.Groups.{handle_read_by_group-Short}
use gatt.Central.Read.{handle_read_by_type, handle_read, handle_read_blob}
use gatt.Central.Read.Within.{handle_read_by_type-Short, handle_read-Short, handle_read_blob-Short}
use gatt.Central.Write.Within.{Fitting, error-Fitting, handle_mtu-Fitting, handle_write-Fitting}
use gatt.Central.{answer, handle_req}

-- handleReq, on every PDU, from a state whose MTU is at least 23: if it does not panic, the response,
-- if there is one, is no longer than the MTU that the connection then has, and this is at least 23.
pub handle_req-Fitting : (c : Central) (b : Slice) → 23 ≤ c.mtu → Ensures Fitting (handle_req c b)
unfolding handle_req
handle_req-Fitting c b least =
    Ensures-bind {P = λ _. Unit} Fitting (index b.elems 0) _ (Ensures-any (index b.elems 0)) (λ t _.
      Ensures-bind {P = λ _. Unit} Fitting (slice_from b 1) _ (Ensures-any (slice_from b 1))
        (λ req _.
          if-Ensures Fitting (t == Op.mtu_req) _ _ (λ e. handle_mtu-Fitting c least req)
            (λ e.
              if-Ensures Fitting (t == Op.find_info_req) _ _
                (λ e. short (handle_find_info c req) (handle_find_info-Short c.mtu room c req refl))
                (λ e.
                  if-Ensures Fitting (t == Op.find_by_type_value_req) _ _
                    (λ e.
                      short (handle_find_by_type_value c req)
                        (handle_find_by_type_value-Short c.mtu room c req refl))
                    (λ e.
                      if-Ensures Fitting (t == Op.read_by_type_req) _ _
                        (λ e.
                          short (handle_read_by_type c req)
                            (handle_read_by_type-Short c.mtu room c req refl))
                        (λ e.
                          if-Ensures Fitting (t == Op.read_req) _ _
                            (λ e.
                              short (handle_read c req) (handle_read-Short c.mtu room c req refl))
                            (λ e.
                              if-Ensures Fitting (t == Op.read_blob_req) _ _
                                (λ e.
                                  short (handle_read_blob c req)
                                    (handle_read_blob-Short c.mtu room c req refl))
                                (λ e.
                                  if-Ensures Fitting (t == Op.read_by_group_req) _ _
                                    (λ e.
                                      short (handle_read_by_group c req)
                                        (handle_read_by_group-Short c.mtu room c req refl))
                                    (λ e.
                                      if-Ensures Fitting (t == Op.write_req || t == Op.write_cmd) _
                                        _ (λ e. handle_write-Fitting c least t req)
                                        (λ e.
                                          error-Fitting c least t 0x0000
                                            ErrorCode.req_not_supp))))))))))
  where
    room : 5 ≤ c.mtu
    room = omega arith

    short : (m : Run (List ℕ)) → Ensures (Short c.mtu) m → Ensures Fitting (answer c m)
    short m h =
        Ensures-bind {P = Short c.mtu} Fitting m _ h (λ r k. record { short = k; least = least })
