-- ===== src/Central/Discovery/ByTypeValue.antt =====
-- What handleFindByTypeValue answers to a request for the primary services with a UUID.
use gatt.Prelude.{
  ℕ, ◌+◌, ◌-◌, ◌≤◌, ◌<◌, ◌≡◌, refl, sym, ap, ◌∙◌, List, [], ◌∷◌, ◌++◌, map, true, false, arith, ok,
  ◌>>=◌, put_uint16, length, length-append, leb, if◌then◌else◌, append-nil, Bool-cases, inl, inr,
  leb→le, le→leb, bytes_equal,
}
use gatt.Uuid.{Uuid, equal}
use gatt.Att.{att_error_resp, attr_primary_service_uuid}
use gatt.Att.Op
use gatt.Att.ErrorCode
use gatt.L2capWriter.{new_writer, start_chunk, write_fit, write_uint16_fit, bytes}
use gatt.L2capWriter.Writes.{idle, write_byte_fit-idle}
use gatt.L2capWriter.Chunks.{pack, pack_fits, pack_over, commit-filling}
use gatt.AttrTable.{Attr, service}
use gatt.AttrTable.Lookup.{IsContiguous, in_range}
use gatt.Profile.{Service}
use gatt.Central.State.{Central}
use gatt.Central.Discovery.{
  handle_find_by_type_value, find_by_type_value_loop, find_by_type_value_entry,
  find_by_type_value_reply, value_bytes,
}
use gatt.Central.Discovery.Ranges.{
  range_request, range_head, read_handle_range-request, subrange_ordered,
}
use gatt.Central.Discovery.Services.{
  primaries, is_primary, PrimariesAreServices, group_range, in_range-PrimariesAreServices,
}

-- The attributes with a value.
abbrev pub with_value : List ℕ → List Attr → List Attr
with_value u [] = []
with_value u (a ∷ aa) =
    if bytes_equal (value_bytes a) u then a ∷ with_value u aa else with_value u aa

abbrev pub range_entry : Attr → List ℕ
range_entry a = group_range a.pvt

find_by_type_value_entry-idle :
    (m : ℕ) (buf : List ℕ) (a : Attr) (s : Service)
    → a.pvt ≡ service s
    → find_by_type_value_entry (idle m buf) a
      ≡ ok (
        leb (length buf + 4) m,
        idle m (if leb (length buf + 4) m then buf ++ group_range a.pvt else buf),
      )
unfolding find_by_type_value_entry start_chunk write_uint16_fit write_fit
find_by_type_value_entry-idle m buf a s e =
    rw e (commit-filling m buf (put_uint16 s.h ++ put_uint16 s.endh))

find_by_type_value_loop-pack :
    (u : Uuid) (m : ℕ) (buf : List ℕ) (aa : List Attr)
    → PrimariesAreServices aa
    → length buf ≤ m
    → find_by_type_value_loop u (idle m buf) true aa
      ≡ ok (
        true,
        idle m (buf ++ pack (m - length buf) (map range_entry (with_value u.b (primaries aa)))),
      )
unfolding find_by_type_value_loop
find_by_type_value_loop-pack u m buf [] typed h = rw (append-nil buf) refl
find_by_type_value_loop-pack u m buf (a ∷ aa) typed h = elim (Bool-cases (is_primary a)) [
  | inr other ↦ rw other (find_by_type_value_loop-pack u m buf aa typed.1 h)
  | inl primary ↦ elim (Bool-cases (bytes_equal (value_bytes a) u.b)) [
    | inr differs ↦ rw (primary, differs) (find_by_type_value_loop-pack u m buf aa typed.1 h)
    | inl same ↦
        let (s, is_service) = typed.0 primary in
        let e = range_entry a in
        let four : length (group_range a.pvt) ≡ 4 = rw is_service refl in
        let es = map range_entry (with_value u.b (primaries aa)) in
        rw (primary, same, find_by_type_value_entry-idle m buf a s is_service, ← four)
          (elim (Bool-cases (leb (length buf + length e) m)) [
            | inl fits ↦
                let bound = leb→le _ _ fits in
                rw fits (
                  find_by_type_value_loop-pack u m (buf ++ e) aa typed.1
                    (omega (arith, length-append buf e))
                  ∙ ap (λ r. ok (true, idle m r)) (sym (pack_fits m buf e es fits)))
            | inr over ↦ rw over (ap (λ r. ok (true, idle m r)) (sym (pack_over m buf e es h over)))
          ])
  ]
]

-- The answer, from the primary services in the range with the UUID asked for.
abbrev pub find_by_type_value_answer : ℕ → ℕ → List Attr → List ℕ
find_by_type_value_answer m start [] =
    att_error_resp Op.find_by_type_value_req start ErrorCode.attr_not_found
find_by_type_value_answer m start (a ∷ aa) =
    Op.find_by_type_value_resp ∷ pack (m - 1) (map range_entry (a ∷ aa))

-- Where an entry fits, the flag makes no difference once one is written.
find_by_type_value_loop_first :
    (u : Uuid) (m op : ℕ) (a : Attr) (aa : List Attr)
    → 5 ≤ m
    → PrimariesAreServices (a ∷ aa)
    → is_primary a ≡ true
    → bytes_equal (value_bytes a) u.b ≡ true
    → find_by_type_value_loop u (idle m (op ∷ [])) false (a ∷ aa)
      ≡ find_by_type_value_loop u (idle m (op ∷ [])) true (a ∷ aa)
unfolding find_by_type_value_loop
find_by_type_value_loop_first u m op a aa h typed primary same =
    let (s, is_service) = typed.0 primary in
    rw
      (
        primary,
        same,
        find_by_type_value_entry-idle m (op ∷ []) a s is_service,
        le→leb (length (op ∷ []) + 4) m (omega arith),
      )
      refl

find_by_type_value_loop-answer :
    (u : Uuid) (m start : ℕ) (aa : List Attr)
    → PrimariesAreServices aa
    → 5 ≤ m
    → (find_by_type_value_loop u (idle m (Op.find_by_type_value_resp ∷ [])) false aa
        >>= λ (wrote, w). find_by_type_value_reply start wrote w)
      ≡ ok (find_by_type_value_answer m start (with_value u.b (primaries aa)))
unfolding find_by_type_value_reply bytes find_by_type_value_loop
find_by_type_value_loop-answer u m start [] typed h = refl
find_by_type_value_loop-answer u m start (a ∷ aa) typed h = elim (Bool-cases (is_primary a)) [
  | inr other ↦ rw other (find_by_type_value_loop-answer u m start aa typed.1 h)
  | inl primary ↦ elim (Bool-cases (bytes_equal (value_bytes a) u.b)) [
    | inr differs ↦ rw (primary, differs) (find_by_type_value_loop-answer u m start aa typed.1 h)
    | inl same ↦
        let buf : List ℕ = Op.find_by_type_value_resp ∷ [] in
        rw
          (
            find_by_type_value_loop_first u m Op.find_by_type_value_resp a aa h typed primary same,
            find_by_type_value_loop-pack u m buf (a ∷ aa) typed (omega arith),
            primary,
            same,
          )
          refl
  ]
]

-- handleFindByTypeValue on a request for the primary services with a UUID in a range of handles
-- answers with the handle ranges of the services in it that have this UUID, as many whole entries as
-- the MTU allows; or with the error Attribute Not Found if there is none.
-- The table is contiguous and its primary services are services, the MTU is at least 5, and the range
-- is of 16-bit handles and not turned round.
pub handle_find_by_type_value-answer :
    (c : Central) (u : Uuid) (start end : ℕ) (spare : List ℕ)
    → start < 65536
    → end < 65536
    → 5 ≤ c.mtu
    → IsContiguous c.attrs
    → PrimariesAreServices c.attrs.aa
    → start ≤ end + 1
    → handle_find_by_type_value c
        (range_request start end (attr_primary_service_uuid.b ++ u.b) spare)
      ≡ ok (
          find_by_type_value_answer c.mtu start
            (with_value u.b (primaries (in_range start end c.attrs.aa))))
unfolding handle_find_by_type_value new_writer equal
handle_find_by_type_value-answer c u start end spare hs he hm table typed ordered =
    let aa = in_range start end c.attrs.aa in
    rw (range_head start end (attr_primary_service_uuid.b ++ u.b) spare) (
      rw (read_handle_range-request start end [] [] hs he) (
        rw
          (le→leb 6
            (length
              (put_uint16 start ++ put_uint16 end ++ attr_primary_service_uuid.b ++ u.b ++ spare))
            (omega arith))
          (rw
            (le→leb 6
              (length (put_uint16 start ++ put_uint16 end ++ attr_primary_service_uuid.b ++ u.b))
              (omega arith))
            (rw (write_byte_fit-idle c.mtu [] Op.find_by_type_value_resp (omega arith)) (
              rw (subrange_ordered c.attrs start end table ordered) (
                find_by_type_value_loop-answer u c.mtu start aa
                  (in_range-PrimariesAreServices start end c.attrs.aa typed) hm))))))
