-- ===== src/AttrTable/Handles.antt =====
-- The handles that generateAttributes gives out.
use gatt.Prelude.{
  ℕ, suc, ◌+◌, ◌≤◌, ◌<◌, ◌≡◌, refl, sym, subst, ap, List, [], ◌∷◌, ◌++◌, true, false, arith, length,
  length-append, append-nil,
}
use gatt.Profile.{Service, Characteristic, Descriptor}
use gatt.AttrTable.{Attr}
use gatt.AttrTable.Lookup.{HandlesFrom, IsContiguous}
use gatt.AttrTable.Generate.{
  wrap16, place_descriptors, desc_attributes, generate_char_attributes, generate_chars,
  generate_service_attributes, generate_services, generate_attributes,
}

pub HandlesFrom-append :
    (n m : ℕ) (xs ys : List Attr)
    → HandlesFrom n xs
    → m ≡ n + length xs
    → HandlesFrom m ys
    → HandlesFrom n (xs ++ ys)
HandlesFrom-append n m [] ys h e k = let same : m ≡ n = omega arith in rw same at k
HandlesFrom-append n m (x ∷ xs) ys h e k =
    (h.0, HandlesFrom-append (suc n) m xs ys h.1 (omega arith) k)

-- `count` attributes from handle `h` on, with `free` the handle behind them.
record Counts (h count free : ℕ) (aa : List Attr) : Type 0 where
  handles : HandlesFrom h aa
  total : length aa ≡ count
  next : free ≡ h + count

Counts-append :
    (h m n mid free : ℕ) (xs ys : List Attr)
    → Counts h m mid xs
    → Counts mid n free ys
    → Counts h (m + n) free (xs ++ ys)
Counts-append h m n mid free xs ys p q = record {
  handles = HandlesFrom-append h mid xs ys p.handles (omega (arith, p.next, p.total)) q.handles;
  total = omega (arith, length-append xs ys, p.total, q.total);
  next = omega (arith, p.next, q.next);
}

place_descriptors-Counts :
    (c : Characteristic) (ds : List Descriptor) (h : ℕ)
    → h + length ds < 65536
    → Counts h (length ds) (place_descriptors ds h).1 (desc_attributes c (place_descriptors ds h).0)
unfolding place_descriptors desc_attributes
place_descriptors-Counts c [] h fits = record { handles = tt; total = refl; next = omega arith }
place_descriptors-Counts c (d ∷ ds) h fits =
    let e : wrap16 (h + 1) ≡ suc h = omega arith in
    let rest = place_descriptors-Counts c ds (suc h) (omega arith) in
    rw e (record {
      handles = (refl, rest.handles);
      total = ap suc rest.total;
      next = omega (arith, rest.next);
    })

generate_char_attributes-Counts :
    (c : Characteristic) (h : ℕ)
    → h + (2 + length c.descs) < 65536
    → Counts h
        (2 + length c.descs)
        (generate_char_attributes c h).0
        (generate_char_attributes c h).2
unfolding generate_char_attributes
generate_char_attributes-Counts c h fits =
    let e : wrap16 (h + 2) ≡ suc (suc h) = omega arith in
    let e' : wrap16 (h + 1) ≡ suc h = omega arith in
    rw (e, e')
      (let rest =
          place_descriptors-Counts
            (record c { h = h; vh = suc h; descs = (place_descriptors c.descs (suc (suc h))).0 })
            c.descs (suc (suc h)) (omega arith) in
        record {
          handles = (refl, (refl, rest.handles));
          total = omega (arith, rest.total);
          next = omega (arith, rest.next);
        })

-- The number of attributes that characteristics and services take.
abbrev pub chars_size : List Characteristic → ℕ
chars_size [] = 0
chars_size (c ∷ cs) = 2 + length c.descs + chars_size cs

abbrev pub services_size : List Service → ℕ
services_size [] = 0
services_size (s ∷ ss) = suc (chars_size s.chars) + services_size ss

generate_chars-Counts :
    (cs : List Characteristic) (h : ℕ)
    → h + chars_size cs < 65536
    → Counts h (chars_size cs) (generate_chars cs h).0 (generate_chars cs h).2
unfolding generate_chars
generate_chars-Counts [] h fits = record { handles = tt; total = refl; next = omega arith }
generate_chars-Counts (c ∷ cs) h fits =
    let first = generate_char_attributes-Counts c h (omega arith) in
    let mid : ℕ = (generate_char_attributes c h).0 in
    let rest = generate_chars-Counts cs mid (omega (arith, first.next)) in
    Counts-append h (2 + length c.descs) (chars_size cs) mid (generate_chars cs mid).0
      (generate_char_attributes c h).2 (generate_chars cs mid).2 first rest

-- A service that is not the last leaves the next free handle to the next one.
generate_service_attributes-Counts :
    (s : Service) (h : ℕ)
    → h + suc (chars_size s.chars) < 65536
    → Counts h
        (suc (chars_size s.chars))
        (generate_service_attributes s h false).0
        (generate_service_attributes s h false).2
unfolding generate_service_attributes
generate_service_attributes-Counts s h fits =
    let e : wrap16 (h + 1) ≡ suc h = omega arith in
    let rest = generate_chars-Counts s.chars (suc h) (omega arith) in
    rw e (record {
      handles = (refl, rest.handles);
      total = ap suc rest.total;
      next = omega (arith, rest.next);
    })

last_service-handles :
    (s : Service) (h : ℕ)
    → h + suc (chars_size s.chars) < 65536
    → HandlesFrom h (generate_service_attributes s h true).2
unfolding generate_service_attributes
last_service-handles s h fits =
    let e : wrap16 (h + 1) ≡ suc h = omega arith in
    rw e (refl, (generate_chars-Counts s.chars (suc h) (omega arith)).handles)

generate_services-handles :
    (ss : List Service) (h : ℕ)
    → h + services_size ss < 65536
    → HandlesFrom h (generate_services ss h).1
unfolding generate_services
generate_services-handles [] h fits = tt
generate_services-handles (s ∷ []) h fits =
    subst (HandlesFrom h) (sym (append-nil (generate_service_attributes s h true).2))
      (last_service-handles s h (omega arith))
generate_services-handles (s ∷ t ∷ ss) h fits =
    let first = generate_service_attributes-Counts s h (omega arith) in
    let mid : ℕ = (generate_service_attributes s h false).0 in
    let aa : List Attr = (generate_service_attributes s h false).2 in
    HandlesFrom-append h mid aa (generate_services (t ∷ ss) mid).1 first.handles
      (omega (arith, first.next, first.total))
      (generate_services-handles (t ∷ ss) mid (omega (arith, first.next)))

-- The table that generateAttributes builds has contiguous handles from `base` on, if the attributes
-- of all services leave a free handle below 0x10000.
pub generate_attributes-IsContiguous :
    (services : List Service) (base : ℕ)
    → base + services_size services < 65536
    → IsContiguous (generate_attributes services base).0
unfolding generate_attributes
generate_attributes-IsContiguous services base fits = generate_services-handles services base fits

-- What follows a service that ends at `e`: the next one, or nothing at the last handle.
abbrev pub EndsWith : ℕ → List Service → Type 0
EndsWith e [] = e ≡ 0xffff
EndsWith e (s ∷ ss) = Unit

-- The handle ranges of the services follow one another from `n` on, and the last ends at 0xFFFF.
abbrev pub Tiles : ℕ → List Service → Type 0
Tiles n [] = Unit
Tiles n (s ∷ ss) = (s.h ≡ n) × (n ≤ s.endh) × EndsWith s.endh ss × Tiles (suc s.endh) ss

generate_services-Tiles :
    (ss : List Service) (h : ℕ) → h + services_size ss < 65536 → Tiles h (generate_services ss h).0
unfolding generate_services generate_service_attributes
generate_services-Tiles [] h fits = tt
generate_services-Tiles (s ∷ []) h fits = (refl, omega arith, refl, tt)
generate_services-Tiles (s ∷ t ∷ ss) h fits =
    let e : wrap16 (h + 1) ≡ suc h = omega arith in
    let chars = generate_chars-Counts s.chars (suc h) (omega arith) in
    let mid : ℕ = (generate_chars s.chars (suc h)).0 in
    let e' : suc (wrap16 (mid + 65535)) ≡ mid = omega (arith, chars.next) in
    rw e (
      refl,
      omega (arith, chars.next),
      tt,
      rw e' (generate_services-Tiles (t ∷ ss) mid (omega (arith, chars.next))),
    )

-- The services come back with handle ranges that follow one another from `base` on with no gap and
-- no overlap, and the last one ends at 0xFFFF, if a free handle is left below 0x10000.
pub generate_attributes-Tiles :
    (services : List Service) (base : ℕ)
    → base + services_size services < 65536
    → Tiles base (generate_attributes services base).1
unfolding generate_attributes
generate_attributes-Tiles services base fits = generate_services-Tiles services base fits
