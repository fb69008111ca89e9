-- ===== src/Client/Matching/Accepted.antt =====
-- A response whose first byte answers the request, or that is an error for it, ends the wait.
use gatt.Prelude.{ℕ, ◌≡◌, refl, List, [], ◌∷◌, true, some, arith, ok, ==_self}
use gatt.Att.{att_resp_for, att_error_resp}
use gatt.Client.Matching.{accepts, await_response}

pub accepts_answer : (op x : ℕ) (r : List ℕ) → x ≡ att_resp_for op → accepts op (x ∷ r) ≡ ok true
unfolding accepts
accepts_answer op x r e = rw (e, ==_self (att_resp_for op)) refl

pub accepts_error : (op h s : ℕ) → accepts op (att_error_resp op h s) ≡ ok true
unfolding accepts att_error_resp
accepts_error op h s = ground (arith, ==_self op)

pub await_response_accepted :
    (op : ℕ) (r : List ℕ) (rs : List (List ℕ))
    → accepts op r ≡ ok true
    → await_response op (r ∷ rs) ≡ ok (record { response = some r; refused = [] })
unfolding await_response
await_response_accepted op r rs e = rw e refl
