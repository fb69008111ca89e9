-- ===== src/Client/Discovery.antt =====
-- peripheral_linux.go: the client's discovery of services and descriptors. `send_req` stands for
-- sendReq, as in Client.Reading.
pub mod Entries
use gatt.Prelude.{
  ℕ, zero, suc, ◌+◌, ◌%◌, ◌*◌, ◌-◌, List, [], ◌∷◌, ◌++◌, Bool, true, false, Option, none, some, not,
  ◌&&◌, ◌||◌, Run, ok, panic, ◌>>=◌, index, put_uint16, length, take, drop, ◌==◌, if◌then◌else◌,
}
use gatt.Uuid.{Uuid, equal, uuid_contains}
use gatt.Att.{attr_client_characteristic_config_uuid}
use gatt.Att.Op
use gatt.Profile.{Service, Descriptor}
use gatt.Client.Matching.{finish}
use gatt.Client.Reading.{ClientError, not_sent, invalid_length, att_error, tail_of}

-- What a discovery returns: the list and the error beside it. One that has not ended within the fuel
-- is `searching`.
pub data Discovered (A : Type 0) : Type 0 where
  returned : List A → Option ClientError → Discovered A
  searching : Discovered A

-- The variables of a discovery loop: what was found so far, `done` and `start`.
pub record Scan (A : Type 0) : Type 0 where
  pub found : List A
  pub done : Bool
  pub start : ℕ

-- A list of entries of `l` bytes, for one of two lengths. `%` on 0 is not reached.
abbrev pub whole_entries : ℕ → ℕ → ℕ → List ℕ → Bool
whole_entries short long l b =
    (l == short && (length b % short == 0)) || (l == long && (length b % long == 0))

abbrev pub service_entry : List ℕ → ℕ → ℕ → Service
service_entry u h endh = record { uuid = record { b = u }; chars = []; h = h; endh = endh }

abbrev pub keep : {A : Type 0} → Bool → A → List A → List A
keep true a found = found ++ (a ∷ [])
keep false a found = found

-- The loop over the entries of one response. An entry takes `l` bytes, so the length is fuel enough.
pub service_scan : ℕ → Option (List Uuid) → ℕ → List ℕ → Scan Service → Run (Scan Service)
service_scan zero ds l b x = ok x
service_scan (suc fuel) ds l [] x = ok x
service_scan (suc fuel) ds l (h0 ∷ []) x = panic
service_scan (suc fuel) ds l (h0 ∷ h1 ∷ []) x = panic
service_scan (suc fuel) ds l (h0 ∷ h1 ∷ e0 ∷ []) x = panic
service_scan (suc fuel) ds l (h0 ∷ h1 ∷ e0 ∷ e1 ∷ b) x =
    let endh = e0 + e1 * 256 in
    let u = take (l - 4) b in
    service_scan fuel ds l (drop (l - 4) b) (record {
      found =
          keep (uuid_contains ds (record { b = u })) (service_entry u (h0 + h1 * 256) endh) x.found;
      done = endh == 0xffff;
      start = (endh + 1) % 65536;
    })

abbrev pub descriptor_entry : List ℕ → ℕ → Descriptor
descriptor_entry u h = record {
  uuid = record { b = u };
  props = 0;
  secure = 0;
  h = h;
  value = none;
  value_str = [];
  read_handler = none;
  write_handler = none;
}

-- The descriptors found, and the last one with the type of a configuration descriptor (cccd).
pub record Described : Type 0 where
  pub scan : Scan Descriptor
  pub cccd : Option Descriptor

pub descriptor_scan : ℕ → Option (List Uuid) → ℕ → ℕ → List ℕ → Described → Run Described
descriptor_scan zero ds endh l b x = ok x
descriptor_scan (suc fuel) ds endh l [] x = ok x
descriptor_scan (suc fuel) ds endh l (h0 ∷ []) x = panic
descriptor_scan (suc fuel) ds endh l (h0 ∷ h1 ∷ b) x =
    let h = h0 + h1 * 256 in
    let d = descriptor_entry (take (l - 2) b) h in
    descriptor_scan fuel ds endh l (drop (l - 2) b) (record {
      scan = record {
        found = keep (uuid_contains ds d.uuid) d x.scan.found;
        done = h == endh;
        start = (h + 1) % 65536;
      };
      cccd = if equal d.uuid attr_client_characteristic_config_uuid then some d else x.cccd;
    })

module _ {S : Type 0} (send_req : S → List ℕ → Run (Option (List ℕ) × S)) where
  -- DiscoverServices, with the peripheral's list of services, which it extends.
  pub discover_services :
      ℕ → Option (List Uuid) → S → List Service → ℕ → Run (Discovered Service × List Service × S)
  discover_services zero ds s services start = ok (searching, services, s)
  discover_services (suc fuel) ds s services start = do
    (r, s') ←
        send_req s
          (Op.read_by_group_req ∷ put_uint16 start ++ put_uint16 0xffff ++ put_uint16 0x2800)
    elim r [
      | none ↦ ok (returned [] (some not_sent), services, s')
      | some p ↦ do
        (done, err) ← finish Op.read_by_group_req start p
        if done then ok (returned services (att_error err), services, s') else do
          b ← tail_of p
          l ← index b 0
          rest ← tail_of b
          if not (whole_entries 6 20 l rest)
              then ok (returned [] (some invalid_length), services, s')
              else do
                x ←
                    service_scan (length rest) ds l rest
                      (record { found = services; done = false; start = start })
                let next = discover_services fuel ds s' x.found x.start
                if x.done then ok (returned x.found (att_error err), x.found, s') else next
    ]

  -- DiscoverIncludedServices. Every request asks for the handles 1 to 5.
  pub discover_included_services :
      ℕ → Option (List Uuid) → S → List Service → ℕ → Run (Discovered Service × S)
  discover_included_services zero ss s services start = ok (searching, s)
  discover_included_services (suc fuel) ss s services start = do
    (r, s') ←
        send_req s (Op.read_by_group_req ∷ put_uint16 0x01 ++ put_uint16 0x05 ++ put_uint16 0x2802)
    elim r [
      | none ↦ ok (returned [] (some not_sent), s')
      | some p ↦ do
        (done, err) ← finish Op.read_by_group_req start p
        if done then ok (returned services (att_error err), s') else do
          b ← tail_of p
          l ← index b 0
          rest ← tail_of b
          if not (whole_entries 6 20 l rest) then ok (returned [] (some invalid_length), s') else do
            x ←
                service_scan (length rest) ss l rest
                  (record { found = services; done = false; start = start })
            let next = discover_included_services fuel ss s' x.found x.start
            if x.done then ok (returned x.found (att_error err), s') else next
    ]

  -- The loop of DiscoverDescriptors, with the handle `endh` that ends the characteristic.
  pub descriptors_until :
      ℕ → Option (List Uuid) → S → ℕ → Described → Run (Discovered Descriptor × Described × S)
  descriptors_until zero ds s endh x = ok (searching, x, s)
  descriptors_until (suc fuel) ds s endh x = do
    (r, s') ← send_req s (Op.find_info_req ∷ put_uint16 x.scan.start ++ put_uint16 endh)
    elim r [
      | none ↦ ok (returned [] (some not_sent), x, s')
      | some p ↦ do
        (done, err) ← finish Op.find_info_req x.scan.start p
        if done then ok (returned x.scan.found (att_error err), x, s') else do
          b ← tail_of p
          f ← index b 0
          rest ← tail_of b
          let l = if f == 1 then 4 else 18
          if not ((f == 1 && (length rest % 4 == 0)) || (f == 2 && (length rest % 18 == 0)))
              then ok (returned [] (some invalid_length), x, s')
              else do
                x' ← descriptor_scan (length rest) ds endh l rest (record x {
                  scan = record { found = x.scan.found; done = false; start = x.scan.start };
                })
                let next = descriptors_until fuel ds s' endh x'
                if x'.scan.done then ok (returned x'.scan.found (att_error err), x', s') else next
    ]

  -- DiscoverDescriptors on a characteristic with its value under `vh`. Its end, where it is 0, is
  -- that of its service, or 0xFFFF if it has none.
  pub discover_descriptors :
      ℕ
      → Option (List Uuid)
      → S
      → ℕ
      → ℕ
      → Option ℕ
      → Described
      → Run (Discovered Descriptor × Described × S)
  discover_descriptors fuel ds s vh endh service_endh x =
      let of_service : ℕ = elim service_endh [ none ↦ 0xffff | some e ↦ e ] in
      let end = if endh == 0 then of_service else endh in
      descriptors_until fuel ds s end
        (record x { scan = record x.scan { done = false; start = (vh + 1) % 65536 } })
