-- ===== src/Android/GattServer/Connected.antt =====
-- The centrals that are open are those that the map of connected centrals leads to.
pub mod Changes
use gatt.Prelude.{
  ℕ, zero, suc, ◌+◌, ◌<◌, ◌≡◌, ◌≢◌, refl, sym, ap, subst, ◌∙◌, List, [], ◌∷◌, ◌++◌, Bool, true,
  false, Option, none, some, arith, length, get_elem?, bytes_equal, bytes_equal_iff, if◌then◌else◌,
  ◌==◌, ==_iff, ==_self, Bool-cases, Option-cases, inl, inr,
}
use gatt.Prelude.{
  update, get_elem?-update_same, get_elem?-update_other, get_elem?-append_old,
  get_elem?-append_last, append_cases, old, last, get_elem?-lt,
}
use gatt.Android.Maps.{
  Text, find, erase, store, find-erase, find-store, find-erase_other, find-erase-some,
  bytes_equal_self,
}
use gatt.Android.GattServer.{Central, close_central, addr_at, set_mtu}

-- BluetoothDevice.getAddress gives an address like "00:11:22:AA:BB:CC".
abbrev pub IsAddress : Text → Type 0
IsAddress a = length a ≡ 17

pub record IsOpen (cs : List Central) (a : Text) (q : ℕ) : Type 0 where
  pub c : Central
  pub obj : ℕ
  pub stored : get_elem? cs q ≡ some c
  pub same_addr : c.addr ≡ a
  pub dev : c.bt_dev ≡ some obj

-- The central that the map has for an address is open and has this address; a central that is open
-- is the one of the map; and all addresses have the length of one.
pub record Connected (m : List (Text × ℕ)) (cs : List Central) : Type 0 where
  pub known : (a : Text) (q : ℕ) → find m a ≡ some q → IsOpen cs a q
  pub tracked :
      (q : ℕ) (c : Central) (obj : ℕ)
      → get_elem? cs q ≡ some c
      → c.bt_dev ≡ some obj
      → find m c.addr ≡ some q
  pub addresses : (q : ℕ) (c : Central) → get_elem? cs q ≡ some c → IsAddress c.addr

pub none-Connected : Connected [] []
unfolding find
none-Connected = record {
  known = λ a q e. cc;
  tracked = λ q c obj e f. cc;
  addresses = λ q c e. cc;
}

update_missing :
    {c : Central} (xs : List Central) (r : ℕ) (g : Central → Central)
    → get_elem? xs r ≡ none
    → get_elem? (update xs r g) r ≡ some c
    → ⊥
unfolding update
update_missing [] r g n e = cc
update_missing (x ∷ xs) zero g n e = cc
update_missing (x ∷ xs) (suc r) g n e = update_missing xs r g n e

-- A change of a central that keeps its address.
abbrev pub KeepsAddr : (Central → Central) → Type 0
KeepsAddr f = (c : Central) → (f c).addr ≡ c.addr

module _ (cs : List Central) (p : ℕ) (f : Central → Central) where
  -- An updated entry is another one, or the changed one.
  pub data Updated (q : ℕ) (c : Central) : Type 0 where
    same : p ≡ q → (k : Central) → get_elem? cs q ≡ some k → f k ≡ c → Updated q c
    other : p ≢ q → get_elem? cs q ≡ some c → Updated q c

  pub update_cases : (q : ℕ) (c : Central) → get_elem? (update cs p f) q ≡ some c → Updated q c
  update_cases q c e = elim (Bool-cases (p == q)) [
    | inl h ↦
        let here : p ≡ q = (==_iff p q).0 h in
        elim (Option-cases (get_elem? cs p)) [
          | inl n ↦ absurd (update_missing cs p f n (ap (get_elem? (update cs p f)) here ∙ e))
          | inr (k, s) ↦
              let new : some (f k) ≡ some c =
                sym (get_elem?-update_same cs p f k s) ∙ ap (get_elem? (update cs p f)) here ∙ e in
              same here k (ap (get_elem? cs) (sym here) ∙ s) cc
        ]
    | inr h ↦
        let apart : p ≢ q = λ e'. let yes = (==_iff p q).1 e' in cc in
        other apart (sym (get_elem?-update_other cs p q f apart) ∙ e)
  ]

  pub addr_at-update : KeepsAddr f → (q : ℕ) → addr_at (update cs p f) q ≡ addr_at cs q
  unfolding addr_at update
  addr_at-update keeps = go cs p
    where
      go : (xs : List Central) (r q : ℕ) → addr_at (update xs r f) q ≡ addr_at xs q
      go [] r q = refl
      go (x ∷ xs) zero zero = ap some (keeps x)
      go (x ∷ xs) zero (suc q) = refl
      go (x ∷ xs) (suc r) zero = refl
      go (x ∷ xs) (suc r) (suc q) = go xs r q

pub addr_at-append :
    (cs : List Central) (k : Central) (q : ℕ) (a : Text)
    → addr_at cs q ≡ some a
    → addr_at (cs ++ (k ∷ [])) q ≡ some a
unfolding addr_at
addr_at-append [] k q a e = cc
addr_at-append (c ∷ cs) k zero a e = e
addr_at-append (c ∷ cs) k (suc q) a e = addr_at-append cs k q a e

pub addr_at-append_last :
    (cs : List Central) (k : Central) → addr_at (cs ++ (k ∷ [])) (length cs) ≡ some k.addr
unfolding addr_at
addr_at-append_last [] k = refl
addr_at-append_last (c ∷ cs) k = addr_at-append_last cs k

pub set_mtu-KeepsAddr : (mtu : ℕ) → KeepsAddr (set_mtu mtu)
unfolding set_mtu
set_mtu-KeepsAddr mtu c = refl

pub close_central-KeepsAddr : KeepsAddr close_central
unfolding close_central
close_central-KeepsAddr c = refl

module _ (m : List (Text × ℕ)) (cs : List Central) (l : Connected m cs) where
  -- setMTU, on any central.
  pub set_mtu-Connected : (p mtu : ℕ) → Connected m (update cs p (set_mtu mtu))
  unfolding set_mtu
  set_mtu-Connected p mtu = record {
    known = λ a q e. kept a q (l.known a q e);
    tracked = λ q c obj e d. elim (update_cases cs p (set_mtu mtu) q c e) [
      | same h k s new ↦
          subst (λ (z : Central). find m z.addr ≡ some q) new
            (l.tracked q k obj s (ap (λ (z : Central). z.bt_dev) new ∙ d))
      | other h s ↦ l.tracked q c obj s d
    ];
    addresses = λ q c e. elim (update_cases cs p (set_mtu mtu) q c e) [
      | same h k s new ↦ subst (λ (z : Central). IsAddress z.addr) new (l.addresses q k s)
      | other h s ↦ l.addresses q c s
    ];
  }
    where
      kept : (a : Text) (q : ℕ) → IsOpen cs a q → IsOpen (update cs p (set_mtu mtu)) a q
      kept a q o = elim (Bool-cases (p == q)) [
        | inl h ↦
            let here : q ≡ p = sym ((==_iff p q).0 h) in
            record {
              c = set_mtu mtu o.c;
              obj = o.obj;
              stored =
                  subst (λ r. get_elem? (update cs p (set_mtu mtu)) r ≡ some (set_mtu mtu o.c))
                    (sym here)
                    (get_elem?-update_same cs p (set_mtu mtu) o.c
                      (ap (get_elem? cs) (sym here) ∙ o.stored));
              same_addr = o.same_addr;
              dev = o.dev;
            }
        | inr h ↦
            let apart : p ≢ q = λ e'. let yes = (==_iff p q).1 e' in cc in
            record {
              c = o.c;
              obj = o.obj;
              stored = get_elem?-update_other cs p q (set_mtu mtu) apart ∙ o.stored;
              same_addr = o.same_addr;
              dev = o.dev;
            }
      ]
