-- ===== src/Device/Services.antt =====
-- device_linux.go and attr.go: the table does not depend on how the services came to the device. The
-- generation overwrites every handle that an earlier one has left.
use gatt.Prelude.{ℕ, ◌+◌, ◌≡◌, refl, sym, ap, ◌∙◌, List, [], ◌∷◌, ◌++◌, append_assoc}
use gatt.Profile.{Service, Characteristic, Descriptor}
use gatt.AttrTable.{Attr}
use gatt.AttrTable.Generate.{
  declaration, value_attribute, desc_attributes, wrap16, place_descriptors,
  generate_char_attributes, generate_chars, generate_service_attributes, is_last, generate_services,
  generate_attributes,
}
use gatt.Device.{Device, regenerate, add_service, set_services}

-- The objects without their handles.
abbrev blank_descriptors : List Descriptor → List Descriptor
blank_descriptors [] = []
blank_descriptors (d ∷ ds) = record d { h = 0 } ∷ blank_descriptors ds

abbrev blank_characteristic : Characteristic → Characteristic
blank_characteristic c = record c { h = 0; vh = 0; descs = blank_descriptors c.descs }

abbrev blank_characteristics : List Characteristic → List Characteristic
blank_characteristics [] = []
blank_characteristics (c ∷ cs) = blank_characteristic c ∷ blank_characteristics cs

abbrev blank_services : List Service → List Service
blank_services [] = []
blank_services (s ∷ ss) =
    record s { h = 0; endh = 0; chars = blank_characteristics s.chars } ∷ blank_services ss

place_descriptors-blank :
    (ds : List Descriptor) (h : ℕ)
    → place_descriptors (blank_descriptors ds) h ≡ place_descriptors ds h
unfolding place_descriptors
place_descriptors-blank [] h = refl
place_descriptors-blank (d ∷ ds) h = rw (place_descriptors-blank ds (wrap16 (h + 1))) refl

blank-place_descriptors :
    (ds : List Descriptor) (h : ℕ)
    → blank_descriptors (place_descriptors ds h).0 ≡ blank_descriptors ds
unfolding place_descriptors
blank-place_descriptors [] h = refl
blank-place_descriptors (d ∷ ds) h =
    ap (λ r. record d { h = 0 } ∷ r) (blank-place_descriptors ds (wrap16 (h + 1)))

-- What is generated for a characteristic whose descriptors have been placed.
abbrev generated : Characteristic → ℕ → List Descriptor × ℕ → ℕ × Characteristic × List Attr
generated c h p =
    let c' : Characteristic = record c { h = h; vh = wrap16 (h + 1); descs = p.0 } in
    (p.1, c', declaration c' ∷ value_attribute c' ∷ desc_attributes c' p.0)

generate_char_attributes-blank :
    (c : Characteristic) (h : ℕ)
    → generate_char_attributes (blank_characteristic c) h ≡ generate_char_attributes c h
unfolding generate_char_attributes
generate_char_attributes-blank c h =
    ap (generated c h) (place_descriptors-blank c.descs (wrap16 (h + 2)))

-- A characteristic before those that follow it.
abbrev ahead :
    ℕ × Characteristic × List Attr
    → ℕ × List Characteristic × List Attr
    → ℕ × List Characteristic × List Attr
ahead p q = (q.0, p.1 ∷ q.1, p.2 ++ q.2)

generate_chars-blank :
    (cs : List Characteristic) (h : ℕ)
    → generate_chars (blank_characteristics cs) h ≡ generate_chars cs h
unfolding generate_chars generate_char_attributes
generate_chars-blank [] h = refl
generate_chars-blank (c ∷ cs) h =
    ap (λ p. ahead p (generate_chars (blank_characteristics cs) p.0))
      (generate_char_attributes-blank c h)
    ∙ ap (ahead (generate_char_attributes c h))
        (generate_chars-blank cs (generate_char_attributes c h).0)

blank-generate_chars :
    (cs : List Characteristic) (h : ℕ)
    → blank_characteristics (generate_chars cs h).1 ≡ blank_characteristics cs
unfolding generate_chars generate_char_attributes
blank-generate_chars [] h = refl
blank-generate_chars (c ∷ cs) h = rw (blank-place_descriptors c.descs (wrap16 (h + 2))) (
    ap (λ r. blank_characteristic c ∷ r)
      (blank-generate_chars cs (place_descriptors c.descs (wrap16 (h + 2))).1))

is_last-blank : (ss : List Service) → is_last (blank_services ss) ≡ is_last ss
is_last-blank [] = refl
is_last-blank (s ∷ ss) = refl

generate_services-blank :
    (ss : List Service) (h : ℕ) → generate_services (blank_services ss) h ≡ generate_services ss h
unfolding generate_services generate_service_attributes
generate_services-blank [] h = refl
generate_services-blank (s ∷ ss) h =
    rw (generate_chars-blank s.chars (wrap16 (h + 1)), is_last-blank ss)
      (rw (generate_services-blank ss (generate_service_attributes s h (is_last ss)).0) refl)

blank-generate_services :
    (ss : List Service) (h : ℕ) → blank_services (generate_services ss h).0 ≡ blank_services ss
unfolding generate_services generate_service_attributes
blank-generate_services [] h = refl
blank-generate_services (s ∷ ss) h = rw (blank-generate_chars s.chars (wrap16 (h + 1))) (
    ap (λ r. record s { h = 0; endh = 0; chars = blank_characteristics s.chars } ∷ r)
      (blank-generate_services ss (generate_service_attributes s h (is_last ss)).0))

blank_services-append :
    (ss ts : List Service) → blank_services (ss ++ ts) ≡ blank_services ss ++ blank_services ts
blank_services-append [] ts = refl
blank_services-append (s ∷ ss) ts =
    ap (λ r. record s { h = 0; endh = 0; chars = blank_characteristics s.chars } ∷ r)
      (blank_services-append ss ts)

-- Generation over services that have been generated before is generation over them as they were.
generate_services-again :
    (ss ts : List Service) (h k : ℕ)
    → generate_services ((generate_services ss k).0 ++ ts) h ≡ generate_services (ss ++ ts) h
generate_services-again ss ts h k =
    sym (generate_services-blank ((generate_services ss k).0 ++ ts) h)
    ∙ ap (λ x. generate_services x h)
        (blank_services-append (generate_services ss k).0 ts
          ∙ ap (λ r. r ++ blank_services ts) (blank-generate_services ss k)
          ∙ sym (blank_services-append ss ts))
    ∙ generate_services-blank (ss ++ ts) h

regenerate-again :
    (d : Device) (ss : List Service)
    → regenerate (record (regenerate d) { services = (regenerate d).services ++ ss })
      ≡ regenerate (record d { services = d.services ++ ss })
unfolding regenerate generate_attributes
regenerate-again d ss = rw (generate_services-again d.services ss 1 1) refl

abbrev pub add_all : Device → List Service → Device
add_all d [] = d
add_all d (s ∷ ss) = add_all (add_service d s) ss

add_all-regenerate :
    (d : Device) (s : Service) (ss : List Service)
    → add_all d (s ∷ ss) ≡ regenerate (record d { services = d.services ++ (s ∷ ss) })
unfolding add_service
add_all-regenerate d s [] = refl
add_all-regenerate d s (t ∷ ss) =
    add_all-regenerate (add_service d s) t ss
    ∙ regenerate-again (record d { services = d.services ++ (s ∷ []) }) (t ∷ ss)
    ∙ ap (λ x. regenerate (record d { services = x })) (append_assoc d.services (s ∷ []) (t ∷ ss))

-- AddService on one service after another, at least one, to a device that has no services, leaves the
-- device as SetServices on all of them does: the same table, and the same handles in the services.
pub add_all-set_services :
    (d : Device) (s : Service) (ss : List Service)
    → d.services ≡ []
    → add_all d (s ∷ ss) ≡ set_services d (s ∷ ss)
unfolding set_services regenerate
add_all-set_services d s ss none_yet = add_all-regenerate d s ss ∙ rw none_yet refl
