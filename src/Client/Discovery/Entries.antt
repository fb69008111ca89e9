-- ===== src/Client/Discovery/Entries.antt =====
-- The loop over the entries of a response reads them as they were written.
use gatt.Prelude.{
  ℕ, zero, suc, ◌+◌, ◌-◌, ◌*◌, ◌%◌, ◌/◌, ◌≤◌, ◌<◌, ◌≡◌, refl, List, [], ◌∷◌, ◌++◌, Option, none,
  some, Bool, true, false, arith, ok, append-nil, append_assoc, bytes_equal, if◌then◌else◌, ap,
  ◌||◌, ◌∙◌, length, take_left, drop_left, put_uint16, ◌==◌, All,
}
use gatt.Uuid.{Uuid, contains_loop, uuid_contains}
use gatt.Profile.{Service}
use gatt.Client.Discovery.{Scan, service_scan, keep}

-- An entry: the handle range of a service, and the bytes of its UUID, `w` of them.
abbrev pub Entry : Type 0
Entry = ℕ × ℕ × List ℕ

abbrev pub IsEntry : ℕ → Entry → Type 0
IsEntry w (h, endh, u) = (h < 65536) × (endh < 65536) × (length u ≡ w)

abbrev pub write_entries : List Entry → List ℕ
write_entries [] = []
write_entries ((h, endh, u) ∷ es) = put_uint16 h ++ put_uint16 endh ++ u ++ write_entries es

abbrev among : List Uuid → List ℕ → Bool
among [] u = false
among (d ∷ ds) u = bytes_equal d.b u || among ds u

-- Whether a UUID is asked for: every one is if there is no list.
abbrev pub asked : Option (List Uuid) → List ℕ → Bool
asked none u = true
asked (some ds) u = among ds u

-- The services asked for, in the order of their entries.
abbrev pub services_of : Option (List Uuid) → List Entry → List Service
services_of ds [] = []
services_of ds ((h, endh, u) ∷ es) =
    let rest = services_of ds es in
    if asked ds u
    then record { uuid = record { b = u }; chars = []; h = h; endh = endh } ∷ rest
    else rest

-- Whether the last entry ends at the last handle, and the handle behind it.
abbrev pub at_end : Bool → List Entry → Bool
at_end done [] = done
at_end done ((h, endh, u) ∷ es) = at_end (endh == 65535) es

abbrev pub behind : ℕ → List Entry → ℕ
behind start [] = start
behind start ((h, endh, u) ∷ es) = behind (if endh == 65535 then 0 else endh + 1) es

either : (c : Bool) {a b : Bool} → a ≡ b → (if c then true else a) ≡ c || b
either true e = refl
either false e = e

uuid_contains-asked :
    (ds : Option (List Uuid)) (u : List ℕ) → uuid_contains ds (record { b = u }) ≡ asked ds u
unfolding uuid_contains
uuid_contains-asked none u = refl
uuid_contains-asked (some ds) u = loop ds
  where
    loop : (ds : List Uuid) → contains_loop ds (record { b = u }) ≡ among ds u
    loop [] = refl
    loop (d ∷ ds) = either (bytes_equal d.b u) (loop ds)

keep-append :
    (wanted : Bool) (a : Service) (found rest : List Service)
    → keep wanted a found ++ rest ≡ found ++ (if wanted then a ∷ rest else rest)
keep-append true a found rest = append_assoc found (a ∷ []) rest
keep-append false a found rest = refl

-- The client's loop on entries with UUIDs of one length, each field within 16 bits, written one after
-- the other: it does not panic, appends the services asked for in the order of their entries, and
-- leaves `done` and `start` as the last entry says: done where it ends at the handle 0xFFFF, and
-- otherwise to go on behind its end. The number of entries is fuel enough.
pub service_scan-write_entries :
    (fuel w : ℕ) (ds : Option (List Uuid)) (es : List Entry) (x : Scan Service)
    → All (IsEntry w) es
    → length es ≤ fuel
    → service_scan fuel ds (4 + w) (write_entries es) x
      ≡ ok (record {
        found = x.found ++ services_of ds es;
        done = at_end x.done es;
        start = behind x.start es;
      })
unfolding service_scan
service_scan-write_entries zero w ds [] x h enough = rw (append-nil x.found) refl
service_scan-write_entries (suc fuel) w ds [] x h enough = rw (append-nil x.found) refl
service_scan-write_entries zero w ds (e ∷ es) x h enough = absurd (omega arith)
service_scan-write_entries (suc fuel) w ds ((h, endh, u) ∷ es) x ((small, small', size), rest)
      enough =
    let handle : h % 256 + h / 256 % 256 * 256 ≡ h = omega arith in
    let end : endh % 256 + endh / 256 % 256 * 256 ≡ endh = omega arith in
    let width : 4 + w - 4 ≡ length u = omega (arith, size) in
    let next : (endh + 1) % 65536 ≡ (if endh == 65535 then 0 else endh + 1) = ground arith in
    rw (handle, end, width, take_left u (write_entries es), drop_left u (write_entries es))
      (rw (uuid_contains-asked ds u, next)
        (service_scan-write_entries fuel w ds es _ rest (omega arith)
          ∙ ap
              (λ r. ok (record {
                found = r;
                done = at_end (endh == 65535) es;
                start = behind (if endh == 65535 then 0 else endh + 1) es;
              }))
              (keep-append (asked ds u) _ x.found (services_of ds es))))
