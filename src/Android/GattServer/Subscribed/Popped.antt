-- ===== src/Android/GattServer/Subscribed/Popped.antt =====
-- What popNotifiersForCentralAddressLocked takes out: the notifiers of the centrals with the address.
use gatt.Prelude.{
  ℕ, suc, ◌+◌, ◌-◌, ◌≡◌, ◌≢◌, refl, sym, ap, ◌∙◌, List, [], ◌∷◌, ◌++◌, Bool, true, false, ◌||◌,
  none, some, arith, length, get_elem?, bytes_equal, bytes_equal_iff, if◌then◌else◌, leb, le→leb,
  length-append, drop_left, Bool-cases, inl, inr, All,
}
use gatt.Prelude.{update, get_elem?-update_other}
use gatt.Android.Maps.{Text, find, has_suffix}
use gatt.Android.GattServer.{
  ServerNotifier, GattServer, notifier_key, stop, owner, belongs, pop_entries, stop_each,
}
use gatt.Android.GattServer.Connected.{IsAddress}
use gatt.Android.GattServer.Subscribed.{IsListed, Subscribed, All-map, running-update}

-- An address is a suffix of a key exactly if it is the key's address.
pub has_suffix-notifier_key :
    (u a b : Text) → length a ≡ length b → has_suffix (notifier_key u a) (58 ∷ b) ≡ bytes_equal a b
unfolding has_suffix notifier_key
has_suffix-notifier_key u a b e =
    let total : length (u ++ (58 ∷ a)) ≡ length u + suc (length a) = length-append u (58 ∷ a) in
    let fits : leb (suc (length b)) (length (u ++ (58 ∷ a))) ≡ true =
      le→leb (suc (length b)) (length (u ++ (58 ∷ a))) (omega (arith, total, e)) in
    let front : length (u ++ (58 ∷ a)) - suc (length b) ≡ length u = omega (arith, total, e) in
    rw (fits, front) (rw (drop_left u (58 ∷ a)) refl)

module _ (gs : GattServer) (m : List (Text × ℕ)) where
  abbrev IsHere : Text → ℕ → Type 0
  IsHere key p = IsListed m gs.made_centrals gs.made_notifiers key p

  pub owner-listed : (key : Text) (p : ℕ) (i : IsHere key p) → owner gs p ≡ some i.addr
  unfolding owner
  owner-listed key p i = rw (owner, i.stored) i.central

  pub belongs-listed :
      (b key : Text) (p : ℕ) (i : IsHere key p)
      → IsAddress b
      → belongs gs b key p ≡ bytes_equal i.addr b
  unfolding belongs
  belongs-listed b key p i len =
      let suffix : has_suffix key (58 ∷ b) ≡ bytes_equal i.addr b =
        ap (λ k. has_suffix k (58 ∷ b)) (sym i.same_key)
        ∙ has_suffix-notifier_key i.n.char i.addr b (i.is_address ∙ sym len) in
      rw (owner-listed key p i, suffix) (twice (bytes_equal i.addr b))
    where
      twice : (t : Bool) → (t || t) ≡ t
      twice true = refl
      twice false = refl

  module _ (b : Text) (len : IsAddress b) where
    abbrev kept : List (Text × ℕ) → List (Text × ℕ)
    unfolding pop_entries
    kept ns = (pop_entries gs b ns).0

    abbrev popped : List (Text × ℕ) → List ℕ
    unfolding pop_entries
    popped ns = (pop_entries gs b ns).1

    -- Whose notifiers are popped, and which entries are kept.
    pub popped-owner :
        (ns : List (Text × ℕ))
        → All (λ (e : Text × ℕ). IsHere e.0 e.1) ns
        → All (λ p. owner gs p ≡ some b) (pop_entries gs b ns).1
    unfolding pop_entries
    popped-owner [] h = tt
    popped-owner ((key, p) ∷ ns) h = elim (Bool-cases (belongs gs b key p)) [
      | inl e ↦
          let same : h.0.addr ≡ b =
            (bytes_equal_iff h.0.addr b).0 (sym (belongs-listed b key p h.0 len) ∙ e) in
          rw e (owner-listed key p h.0 ∙ ap some same, popped-owner ns h.1)
      | inr e ↦ rw e (popped-owner ns h.1)
    ]

    pub kept-owner :
        (ns : List (Text × ℕ))
        → All (λ (e : Text × ℕ). IsHere e.0 e.1) ns
        → All (λ (e : Text × ℕ). IsHere e.0 e.1 × (owner gs e.1 ≢ some b)) (pop_entries gs b ns).0
    unfolding pop_entries
    kept-owner [] h = tt
    kept-owner ((key, p) ∷ ns) h = elim (Bool-cases (belongs gs b key p)) [
      | inl e ↦ rw e (kept-owner ns h.1)
      | inr e ↦
          let differs : bytes_equal h.0.addr b ≡ false = sym (belongs-listed b key p h.0 len) ∙ e in
          rw e ((h.0, other h.0 differs), kept-owner ns h.1)
    ]
      where
        other :
            {key : Text} {p : ℕ} (i : IsHere key p)
            → bytes_equal i.addr b ≡ false
            → owner gs p ≢ some b
        other {key} {p} i d e =
            let one : some i.addr ≡ some b = sym (owner-listed key p i) ∙ e in
            let same : i.addr ≡ b = cc in let t = (bytes_equal_iff i.addr b).1 same in cc

    -- A key that is found is kept or its notifier popped.
    pub find-popped :
        (ns : List (Text × ℕ)) (key : Text) (p : ℕ)
        → find ns key ≡ some p
        → belongs gs b key p ≡ false
        → find (pop_entries gs b ns).0 key ≡ some p
    unfolding find pop_entries
    find-popped [] key p e d = e
    find-popped ((j, q) ∷ ns) key p e d = elim (Bool-cases (bytes_equal j key)) [
      | inl t ↦
          let one : some q ≡ some p = rw t at e in
          let q_p : q ≡ p = cc in
          let c : belongs gs b j q ≡ false =
            ap (λ k. belongs gs b k q) ((bytes_equal_iff j key).0 t)
            ∙ ap (belongs gs b key) q_p
            ∙ d in
          rw (c, t) one
      | inr t ↦ elim (Bool-cases (belongs gs b j q)) [
        | inl c ↦ rw c (find-popped ns key p (rw t at e) d)
        | inr c ↦ rw (c, t) (find-popped ns key p (rw t at e) d)
      ]
    ]

    popped_not :
        (ns : List (Text × ℕ)) (key : Text) (p : ℕ)
        → find ns key ≡ some p
        → belongs gs b key p ≡ true
        → All (λ q. q ≢ p) (pop_entries gs b ns).1
        → ⊥
    unfolding find pop_entries
    popped_not [] key p e c h = cc
    popped_not ((j, q) ∷ ns) key p e c h = elim (Bool-cases (bytes_equal j key)) [
      | inl t ↦
          let one : some q ≡ some p = rw t at e in
          let q_p : q ≡ p = cc in
          let c' : belongs gs b j q ≡ true =
            ap (λ k. belongs gs b k q) ((bytes_equal_iff j key).0 t)
            ∙ ap (belongs gs b key) q_p
            ∙ c in
          (first j ((pop_entries gs b ns).0) ((pop_entries gs b ns).1) c' h).0 q_p
      | inr t ↦ elim (Bool-cases (belongs gs b j q)) [
        | inl c' ↦
            popped_not ns key p (rw t at e) c
              (first j ((pop_entries gs b ns).0) ((pop_entries gs b ns).1) c' h).1
        | inr c' ↦ popped_not ns key p (rw t at e) c (rw c' at h)
      ]
    ]
      where
        first :
            (j : Text) {q p : ℕ} (k : List (Text × ℕ)) (r : List ℕ)
            → belongs gs b j q ≡ true
            → All
                (λ q. q ≢ p)
                (if◌then◌else◌ {A = List (Text × ℕ) × List ℕ}
                  (belongs gs b j q)
                  (k, q ∷ r)
                  ((j, q) ∷ k, r)).1
            → All (λ q. q ≢ p) (q ∷ r)
        first j k r c h = rw c at h

    pub find-kept_none :
        (ns : List (Text × ℕ)) (key : Text)
        → find ns key ≡ none
        → find (pop_entries gs b ns).0 key ≡ none
    unfolding find pop_entries
    find-kept_none [] key e = refl
    find-kept_none ((j, q) ∷ ns) key e = elim (Bool-cases (bytes_equal j key)) [
      | inl t ↦ let clash : some q ≡ none = rw t at e in cc
      | inr t ↦ elim (Bool-cases (belongs gs b j q)) [
        | inl c ↦ rw c (find-kept_none ns key (rw t at e))
        | inr c ↦ rw (c, t) (find-kept_none ns key (rw t at e))
      ]
    ]

-- What the stops leave.
pub get_elem?-stop_each :
    (ps : List ℕ) (made : List ServerNotifier) (p : ℕ)
    → All (λ q. q ≢ p) ps
    → get_elem? (stop_each ps made) p ≡ get_elem? made p
unfolding stop_each
get_elem?-stop_each [] made p h = refl
get_elem?-stop_each (q ∷ ps) made p h =
    get_elem?-stop_each ps (update made q stop) p h.1 ∙ get_elem?-update_other made q p stop h.0

pub running-stop_each :
    (ps : List ℕ) (made : List ServerNotifier) (p : ℕ) (n : ServerNotifier)
    → get_elem? (stop_each ps made) p ≡ some n
    → n.done ≡ false
    → All (λ q. q ≢ p) ps × (get_elem? made p ≡ some n)
unfolding stop_each
running-stop_each [] made p n e r = (tt, e)
running-stop_each (q ∷ ps) made p n e r =
    let rest = running-stop_each ps (update made q stop) p n e r in
    let first = running-update made q p n rest.1 r in ((first.0, rest.0), first.1)

-- The notifiers of an address are stopped and their entries go, while only this address changes in
-- the map of centrals.
module _ (gs : GattServer) (m : List (Text × ℕ)) (b : Text) (len : IsAddress b)
    (l : Subscribed m gs.made_centrals gs.notifiers gs.made_notifiers) where
  pub stopped_apart :
      (ps : List ℕ) (p : ℕ)
      → All (λ q. owner gs q ≡ some b) ps
      → owner gs p ≢ some b
      → All (λ q. q ≢ p) ps
  stopped_apart ps p h d = All-map ps (λ q o same. d (ap (owner gs) (sym same) ∙ o)) h

  abbrev ps : List ℕ
  unfolding pop_entries
  ps = (pop_entries gs b gs.notifiers).1

  pub pop-Subscribed :
      (m' : List (Text × ℕ))
      → ((a : Text) → bytes_equal b a ≡ false → find m' a ≡ find m a)
      → Subscribed m' gs.made_centrals
          (pop_entries gs b gs.notifiers).0
          (stop_each (pop_entries gs b gs.notifiers).1 gs.made_notifiers)
  pop-Subscribed m' f = record {
    listed =
        All-map (pop_entries gs b gs.notifiers).0 entry
          (kept-owner gs m b len gs.notifiers l.listed);
    tracked = λ p n e r.
        let before =
          running-stop_each (pop_entries gs b gs.notifiers).1 gs.made_notifiers p n e r in
        let t = l.tracked p n before.1 r in
        record {
          addr = t.addr;
          central = t.central;
          entry = elim (Bool-cases (belongs gs b (notifier_key n.char t.addr) p)) [
            | inl c ↦ absurd (
                popped_not gs m b len gs.notifiers (notifier_key n.char t.addr) p t.entry c
                  before.0)
            | inr c ↦ find-popped gs m b len gs.notifiers (notifier_key n.char t.addr) p t.entry c
          ];
        };
  }
    where
      entry :
          (e : Text × ℕ)
          → IsListed m gs.made_centrals gs.made_notifiers e.0 e.1 × (owner gs e.1 ≢ some b)
          → IsListed m' gs.made_centrals
              (stop_each (pop_entries gs b gs.notifiers).1 gs.made_notifiers)
              e.0
              e.1
      entry e (i, d) = record {
        n = i.n;
        addr = i.addr;
        stored =
            get_elem?-stop_each (pop_entries gs b gs.notifiers).1 gs.made_notifiers e.1 (
              stopped_apart (pop_entries gs b gs.notifiers).1 e.1
                (popped-owner gs m b len gs.notifiers l.listed) d)
            ∙ i.stored;
        running = i.running;
        central = i.central;
        is_address = i.is_address;
        same_key = i.same_key;
        connected = f i.addr apart ∙ i.connected;
      }
        where
          apart : bytes_equal b i.addr ≡ false
          apart = elim (Bool-cases (bytes_equal b i.addr)) [
            | inl t ↦
                let same : b ≡ i.addr = (bytes_equal_iff b i.addr).0 t in
                absurd (d (owner-listed gs m e.0 e.1 i ∙ ap some (sym same)))
            | inr t ↦ t
          ]
