-- ===== src/Hci/Event/Reports.antt =====
-- Advertising reports: the parser never panics, and reads what was written.
use gatt.Prelude.{
  ℕ, zero, suc, ◌+◌, ◌*◌, ◌≤◌, ◌≡◌, refl, List, [], ◌∷◌, ◌++◌, false, Option, none, some, arith,
  Run, ok, length, length-append, length-drop, take, drop, take_left, drop_left, ltb, ltb→le,
  le→ltb, Bool-cases, inl, inr, append_assoc, append-nil, subst,
}
use gatt.Hci.Bytes.{Address, put_mac}
use gatt.Hci.Event.{
  LeAdvertisingReport, each_uint8, each_mac, each_content, sum_lengths, read_reports,
  le_advertising_report,
}

each_uint8-left : (xs r : List ℕ) → each_uint8 (length xs) (xs ++ r) ≡ ok (xs, r)
unfolding each_uint8
each_uint8-left [] r = refl
each_uint8-left (x ∷ xs) r = rw (each_uint8-left xs r) refl

abbrev pub macs : List Address → List ℕ
macs [] = []
macs (m ∷ ms) = put_mac m ++ macs ms

each_mac-left : (ms : List Address) (r : List ℕ) → each_mac (length ms) (macs ms ++ r) ≡ ok (ms, r)
unfolding each_mac
each_mac-left [] r = refl
each_mac-left (m ∷ ms) r = rw (each_mac-left ms r) refl

abbrev pub join : List (List ℕ) → List ℕ
join [] = []
join (x ∷ xs) = x ++ join xs

abbrev pub lengths_of : List (List ℕ) → List ℕ
lengths_of [] = []
lengths_of (x ∷ xs) = length x ∷ lengths_of xs

each_content-left :
    (cs : List (List ℕ)) (r : List ℕ) → each_content (lengths_of cs) (join cs ++ r) ≡ ok (cs, r)
unfolding each_content
each_content-left [] r = refl
each_content-left (c ∷ cs) r =
    let assoc = append_assoc c (join cs) r in
    let long : ltb (length (c ++ (join cs ++ r))) (length c) ≡ false =
      le→ltb _ _ (omega (arith, length-append c (join cs ++ r))) in
    rw (assoc, long, take_left c (join cs ++ r), drop_left c (join cs ++ r))
      (rw (each_content-left cs r) refl)

length-macs : (ms : List Address) → length (macs ms) ≡ 6 * length ms
length-macs [] = refl
length-macs (m ∷ ms) = omega (arith, length-macs ms)

length-lengths_of : (cs : List (List ℕ)) → length (lengths_of cs) ≡ length cs
length-lengths_of [] = refl
length-lengths_of (c ∷ cs) = omega (arith, length-lengths_of cs)

length-join : (cs : List (List ℕ)) → length (join cs) ≡ sum_lengths (lengths_of cs)
length-join [] = refl
length-join (c ∷ cs) = omega (arith, length-append c (join cs), length-join cs)

-- The parts of an event with a number of reports.
abbrev pub write_reports : List ℕ → List ℕ → List Address → List (List ℕ) → List ℕ → List ℕ
write_reports types address_types ms cs rs =
    types ++ (address_types ++ (macs ms ++ (lengths_of cs ++ (join cs ++ rs))))

-- LEAdvertisingReportEP.Unmarshal reads the reports that were written, whatever their number and the
-- lengths of their data.
pub le_advertising_report-write_reports :
    (sub n : ℕ) (types address_types : List ℕ) (ms : List Address) (cs : List (List ℕ))
    (rs : List ℕ)
    → length types ≡ n
    → length address_types ≡ n
    → length ms ≡ n
    → length cs ≡ n
    → length rs ≡ n
    → le_advertising_report (sub ∷ n ∷ write_reports types address_types ms cs rs)
      ≡ ok (
          some (record {
            event_type = types;
            address_type = address_types;
            address = ms;
            lengths = lengths_of cs;
            content = cs;
            rssi = rs;
          }))
unfolding le_advertising_report read_reports
le_advertising_report-write_reports sub n types address_types ms cs rs ht ha hm hc hr =
    let b4 = join cs ++ rs in
    let b3 = lengths_of cs ++ b4 in
    let b2 = macs ms ++ b3 in
    let b1 = address_types ++ b2 in
    let long : ltb (length (types ++ b1)) ((1 + 1 + 6 + 1) * n) ≡ false = le→ltb _ _ (
      omega (
        arith,
        length-append types b1,
        length-append address_types b2,
        length-append (macs ms) b3,
        length-append (lengths_of cs) b4,
        length-macs ms,
        length-lengths_of cs,
      )) in
    let long' : ltb (length b4) (sum_lengths (lengths_of cs) + n) ≡ false =
      le→ltb _ _ (omega (arith, length-append (join cs) rs, length-join cs)) in
    let read_types =
      subst (λ k. each_uint8 k (types ++ b1) ≡ ok (types, b1)) ht (each_uint8-left types b1) in
    let read_address_types =
      subst (λ k. each_uint8 k b1 ≡ ok (address_types, b2)) ha (each_uint8-left address_types b2) in
    let read_macs = subst (λ k. each_mac k b2 ≡ ok (ms, b3)) hm (each_mac-left ms b3) in
    let count : length (lengths_of cs) ≡ n = omega (arith, length-lengths_of cs) in
    let read_lengths =
      subst (λ k. each_uint8 k b3 ≡ ok (lengths_of cs, b4)) count
        (each_uint8-left (lengths_of cs) b4) in
    let read_rssi = subst (λ k. each_uint8 k (rs ++ []) ≡ ok (rs, [])) hr (each_uint8-left rs []) in
    rw long (
      rw read_types (
        rw read_address_types (
          rw read_macs (
            rw read_lengths (
              rw long'
                (rw (each_content-left cs rs) (rw (rw (append-nil rs) at read_rssi) refl)))))))

-- What a loop over `n` entries of `w` bytes leaves, where there are that many bytes.
abbrev Leaves {ℓ} : {A : Type ℓ} → ℕ → List ℕ → Run (A × List ℕ) → (A → Type 0) → Type ℓ
Leaves {A} k b m P = (x : A) × (r : List ℕ) × (m ≡ ok (x, r)) × (length r + k ≡ length b) × P x

each_uint8_total :
    (n : ℕ) (b : List ℕ) → n ≤ length b → Leaves n b (each_uint8 n b) (λ xs. length xs ≡ n)
unfolding each_uint8
each_uint8_total zero b h = ([], b, refl, omega arith, refl)
each_uint8_total (suc n) [] h = absurd (omega arith)
each_uint8_total (suc n) (x ∷ b) h =
    let (xs, r, e, left, count) = each_uint8_total n b (omega arith) in
    (x ∷ xs, r, rw e refl, omega arith, omega arith)

each_mac_total :
    (n : ℕ) (b : List ℕ) → 6 * n ≤ length b → Leaves (6 * n) b (each_mac n b) (λ ms. Unit {0})
unfolding each_mac
each_mac_total zero b h = ([], b, refl, omega arith, tt)
each_mac_total (suc n) (a ∷ b ∷ c ∷ d ∷ e ∷ f ∷ r) h =
    let (ms, r', eq, left, _) = each_mac_total n r (omega arith) in
    (
      record { a0 = f; a1 = e; a2 = d; a3 = c; a4 = b; a5 = a } ∷ ms,
      r',
      rw eq refl,
      omega arith,
      tt,
    )
each_mac_total (suc n) [] h = absurd (omega arith)
each_mac_total (suc n) (a ∷ []) h = absurd (omega arith)
each_mac_total (suc n) (a ∷ b ∷ []) h = absurd (omega arith)
each_mac_total (suc n) (a ∷ b ∷ c ∷ []) h = absurd (omega arith)
each_mac_total (suc n) (a ∷ b ∷ c ∷ d ∷ []) h = absurd (omega arith)
each_mac_total (suc n) (a ∷ b ∷ c ∷ d ∷ e ∷ []) h = absurd (omega arith)

each_content_total :
    (ls b : List ℕ)
    → sum_lengths ls ≤ length b
    → Leaves (sum_lengths ls) b (each_content ls b) (λ cs. Unit {0})
unfolding each_content
each_content_total [] b h = ([], b, refl, omega arith, tt)
each_content_total (l ∷ ls) b h =
    let long : ltb (length b) l ≡ false = le→ltb _ _ (omega arith) in
    let (cs, r, e, left, _) = each_content_total ls (drop l b) (omega (arith, length-drop l b)) in
    (take l b ∷ cs, r, rw long (rw e refl), omega (arith, length-drop l b), tt)

read_reports_total :
    (n : ℕ) (b : List ℕ) → (o : Option LeAdvertisingReport) × (read_reports n b ≡ ok o)
unfolding read_reports
read_reports_total n b = elim (Bool-cases (ltb (length b) ((1 + 1 + 6 + 1) * n))) [
  | inl short ↦ (none, rw short refl)
  | inr long ↦
      let enough = ltb→le _ _ long in
      let (types, b1, e1, left1, _) = each_uint8_total n b (omega arith) in
      let (address_types, b2, e2, left2, _) = each_uint8_total n b1 (omega arith) in
      let (ms, b3, e3, left3, _) = each_mac_total n b2 (omega arith) in
      let (ls, b4, e4, left4, _) = each_uint8_total n b3 (omega arith) in
      elim (Bool-cases (ltb (length b4) (sum_lengths ls + n))) [
        | inl short' ↦ (none, rw long (rw e1 (rw e2 (rw e3 (rw e4 (rw short' refl))))))
        | inr long' ↦
            let enough' = ltb→le _ _ long' in
            let (cs, b5, e5, left5, _) = each_content_total ls b4 (omega arith) in
            let (rs, b6, e6, left6, _) = each_uint8_total n b5 (omega arith) in
            (
              some (record {
                event_type = types;
                address_type = address_types;
                address = ms;
                lengths = ls;
                content = cs;
                rssi = rs;
              }),
              rw long (rw e1 (rw e2 (rw e3 (rw e4 (rw long' (rw e5 (rw e6 refl))))))),
            )
      ]
]

-- LEAdvertisingReportEP.Unmarshal on every event: it returns an error or reports, and never panics.
pub le_advertising_report_total :
    (b : List ℕ) → (o : Option LeAdvertisingReport) × (le_advertising_report b ≡ ok o)
unfolding le_advertising_report
le_advertising_report_total [] = (none, refl)
le_advertising_report_total (x ∷ []) = (none, refl)
le_advertising_report_total (x ∷ n ∷ b) = read_reports_total n b
