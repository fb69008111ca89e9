-- ===== src/Android/GattServer/Connected/Changes.antt =====
-- Centrals that leave the map and come into it.
use gatt.Prelude.{
  ℕ, ◌≡◌, ◌≢◌, refl, sym, ap, subst, ◌∙◌, List, [], ◌∷◌, ◌++◌, true, false, none, some, length,
  get_elem?, bytes_equal, bytes_equal_iff, Bool-cases, inl, inr,
}
use gatt.Prelude.{
  update, get_elem?-update_other, get_elem?-append_old, get_elem?-append_last, append_cases, old,
  last,
}
use gatt.Android.Maps.{Text, find, erase, find-erase_other, find-erase-some}
use gatt.Android.GattServer.{Central, close_central}
use gatt.Android.GattServer.Connected.{IsAddress, IsOpen, Connected, update_cases, same, other}

module _ (m : List (Text × ℕ)) (cs : List Central) (l : Connected m cs) where
  -- A central leaves the map and is closed.
  pub erase-Connected-close :
      (a : Text) (p : ℕ) → find m a ≡ some p → Connected (erase m a) (update cs p close_central)
  unfolding close_central
  erase-Connected-close a p at = record {
    known =
        λ b q e. let before = find-erase-some m a b q e in kept b q before.0 (l.known b q before.1);
    tracked = λ q c obj e d. elim (update_cases cs p close_central q c e) [
      | same h k s new ↦ let gone : none ≡ some obj = ap (λ (z : Central). z.bt_dev) new ∙ d in cc
      | other h s ↦
          let before = l.tracked q c obj s d in
          find-erase_other m a c.addr (apart c.addr q before h) ∙ before
    ];
    addresses = λ q c e. elim (update_cases cs p close_central q c e) [
      | same h k s new ↦ subst (λ (z : Central). IsAddress z.addr) new (l.addresses q k s)
      | other h s ↦ l.addresses q c s
    ];
  }
    where
      apart : (b : Text) (q : ℕ) → find m b ≡ some q → p ≢ q → bytes_equal a b ≡ false
      apart b q e h = elim (Bool-cases (bytes_equal a b)) [
        | inl t ↦
            let one : some p ≡ some q = sym at ∙ ap (find m) ((bytes_equal_iff a b).0 t) ∙ e in
            let here : p ≡ q = cc in absurd (h here)
        | inr t ↦ t
      ]

      kept :
          (b : Text) (q : ℕ)
          → bytes_equal a b ≡ false
          → IsOpen cs b q
          → IsOpen (update cs p close_central) b q
      kept b q d o = record {
        c = o.c;
        obj = o.obj;
        stored = get_elem?-update_other cs p q close_central differ ∙ o.stored;
        same_addr = o.same_addr;
        dev = o.dev;
      }
        where
          differ : p ≢ q
          differ here =
              let k = l.known a p at in
              let one : some k.c ≡ some o.c = sym k.stored ∙ ap (get_elem? cs) here ∙ o.stored in
              let c_same : k.c ≡ o.c = cc in
              let a_same : a ≡ b =
                sym k.same_addr ∙ ap (λ (z : Central). z.addr) c_same ∙ o.same_addr in
              let t : bytes_equal a b ≡ true = (bytes_equal_iff a b).1 a_same in cc

  -- An address that is not in the map.
  pub erase-Connected-none : (a : Text) → find m a ≡ none → Connected (erase m a) cs
  erase-Connected-none a free = record {
    known = λ b q e. l.known b q (find-erase-some m a b q e).1;
    tracked = λ q c obj e d. still c.addr q (l.tracked q c obj e d);
    addresses = l.addresses;
  }
    where
      still : (b : Text) (q : ℕ) → find m b ≡ some q → find (erase m a) b ≡ some q
      still b q e = elim (Bool-cases (bytes_equal a b)) [
        | inl t ↦
            let clash : none ≡ some q = sym free ∙ ap (find m) ((bytes_equal_iff a b).0 t) ∙ e in cc
        | inr t ↦ find-erase_other m a b t ∙ e
      ]

  -- A new central for an address that is not in the map.
  module _ (a : Text) (obj mtu : ℕ) (free : find m a ≡ none) (len : IsAddress a) where
    abbrev new : Central
    new = record { addr = a; bt_dev = some obj; mtu = mtu }

    pub add-Connected : Connected ((a, length cs) ∷ m) (cs ++ (new ∷ []))
    unfolding find
    add-Connected = record {
      known = λ b q e. elim (Bool-cases (bytes_equal a b)) [
        | inl t ↦
            let here : some (length cs) ≡ some q = rw t at e in
            let q_here : length cs ≡ q = cc in
            record {
              c = new;
              obj = obj;
              stored =
                  subst (λ r. get_elem? (cs ++ (new ∷ [])) r ≡ some new) q_here
                    (get_elem?-append_last cs new);
              same_addr = (bytes_equal_iff a b).0 t;
              dev = refl;
            }
        | inr t ↦
            let before : find m b ≡ some q = rw t at e in
            let o = l.known b q before in
            record {
              c = o.c;
              obj = o.obj;
              stored = get_elem?-append_old cs new o.c q o.stored;
              same_addr = o.same_addr;
              dev = o.dev;
            }
      ];
      tracked = λ q c ob e d. elim (append_cases cs new c q e) [
        | last h k ↦
            let same_addr : a ≡ c.addr = ap (λ (z : Central). z.addr) k in
            rw ((bytes_equal_iff a c.addr).1 same_addr) (ap some h)
        | old s ↦
            let before = l.tracked q c ob s d in
            elim (Bool-cases (bytes_equal a c.addr)) [
              | inl t ↦
                  let clash : none ≡ some q =
                    sym free ∙ ap (find m) ((bytes_equal_iff a c.addr).0 t) ∙ before in
                  cc
              | inr t ↦ rw t before
            ]
      ];
      addresses = λ q c e. elim (append_cases cs new c q e) [
        | last h k ↦ subst (λ (z : Central). IsAddress z.addr) k len
        | old s ↦ l.addresses q c s
      ];
    }
