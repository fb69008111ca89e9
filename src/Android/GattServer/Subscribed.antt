-- ===== src/Android/GattServer/Subscribed.antt =====
-- The notifiers that are not stopped are those that the map of notifiers leads to, and their centrals
-- are connected.
pub mod Popped
pub mod Modes
pub mod Changes
use gatt.Prelude.{
  ℕ, zero, suc, ◌+◌, ◌≡◌, ◌≢◌, refl, sym, ap, subst, ◌∙◌, List, [], ◌∷◌, ◌++◌, Bool, true, false,
  Option, none, some, arith, length, get_elem?, bytes_equal, bytes_equal_iff, if◌then◌else◌, ◌==◌,
  ==_iff, ==_self, Bool-cases, Option-cases, inl, inr, All,
}
use gatt.Prelude.{
  update, get_elem?-update_same, get_elem?-update_other, get_elem?-append_old,
  get_elem?-append_last, append_cases, old, last,
}
use gatt.Android.Maps.{
  Text, find, erase, find-erase_other, find-erase-some, find-erase_same, bytes_equal_self,
}
use gatt.Android.GattServer.{Central, ServerNotifier, addr_at, notifier_key, stop}
use gatt.Android.GattServer.Connected.{IsAddress}
use gatt.Android.GattServer.Descriptors.{stop_existing}

-- What an entry of the map leads to: a notifier that is not stopped, with this key, whose central is
-- the one that is connected.
pub record IsListed (m : List (Text × ℕ)) (cs : List Central) (made : List ServerNotifier)
    (key : Text) (p : ℕ) : Type 0 where
  pub n : ServerNotifier
  pub addr : Text
  pub stored : get_elem? made p ≡ some n
  pub running : n.done ≡ false
  pub central : addr_at cs n.c ≡ some addr
  pub is_address : IsAddress addr
  pub same_key : notifier_key n.char addr ≡ key
  pub connected : find m addr ≡ some n.c

abbrev pub Entry : List (Text × ℕ) → List Central → List ServerNotifier → Text × ℕ → Type 0
Entry m cs made e = IsListed m cs made e.0 e.1

pub record IsTracked (cs : List Central) (ns : List (Text × ℕ)) (n : ServerNotifier) (p : ℕ)
    : Type 0 where
  pub addr : Text
  pub central : addr_at cs n.c ≡ some addr
  pub entry : find ns (notifier_key n.char addr) ≡ some p

pub record Subscribed (m : List (Text × ℕ)) (cs : List Central) (ns : List (Text × ℕ))
    (made : List ServerNotifier) : Type 0 where
  pub listed : All (Entry m cs made) ns
  pub tracked :
      (p : ℕ) (n : ServerNotifier)
      → get_elem? made p ≡ some n
      → n.done ≡ false
      → IsTracked cs ns n p

pub All-map {ℓ κ ι} :
    {A : Type ℓ} {P : A → Type κ} {Q : A → Type ι} (xs : List A)
    → ((a : A) → P a → Q a)
    → All P xs
    → All Q xs
All-map [] f h = tt
All-map (x ∷ xs) f h = (f x h.0, All-map xs f h.1)

pub All-erase {κ} :
    (P : Text × ℕ → Type κ) (m : List (Text × ℕ)) (k : Text)
    → All P m
    → All (λ (e : Text × ℕ). (bytes_equal e.0 k ≡ false) × P e) (erase m k)
unfolding erase
All-erase P [] k h = tt
All-erase P ((j, p) ∷ m) k h = elim (Bool-cases (bytes_equal j k)) [
  | inl e ↦ rw e (All-erase P m k h.1)
  | inr e ↦ rw e ((e, h.0), All-erase P m k h.1)
]

pub All-find {κ} :
    (P : Text × ℕ → Type κ) (m : List (Text × ℕ)) (k : Text) (p : ℕ)
    → All P m
    → find m k ≡ some p
    → P (k, p)
unfolding find
All-find P [] k p h e = cc
All-find P ((j, q) ∷ m) k p h e = elim (Bool-cases (bytes_equal j k)) [
  | inl t ↦
      let one : some q ≡ some p = rw t at e in
      let q_p : q ≡ p = cc in
      subst (λ (z : Text × ℕ). P z) (pair ((bytes_equal_iff j k).0 t) q_p) h.0
  | inr t ↦ All-find P m k p h.1 (rw t at e)
]
  where
    pair : {i l : Text} {r s : ℕ} → i ≡ l → r ≡ s → ◌≡◌ {A = Text × ℕ} (i, r) (l, s)
    pair e f = cc

-- A notifier that still runs is not the one that was stopped.
pub running-update :
    (made : List ServerNotifier) (q p : ℕ) (n : ServerNotifier)
    → get_elem? (update made q stop) p ≡ some n
    → n.done ≡ false
    → (q ≢ p) × (get_elem? made p ≡ some n)
unfolding update stop
running-update [] q p n e r = cc
running-update (k ∷ made) zero zero n e r =
    let same : record k { done = true } ≡ n = cc in
    let done : true ≡ false = ap (λ (z : ServerNotifier). z.done) same ∙ r in cc
running-update (k ∷ made) zero (suc p) n e r = (λ h. zero_suc h, e)
  where
    zero_suc : zero ≡ suc p → ⊥
    zero_suc h = omega (arith, h)
running-update (k ∷ made) (suc q) zero n e r = (λ h. suc_zero h, e)
  where
    suc_zero : suc q ≡ zero → ⊥
    suc_zero h = omega (arith, h)
running-update (k ∷ made) (suc q) (suc p) n e r =
    let rest = running-update made q p n e r in (λ h. rest.0 (omega (arith, h)), rest.1)

-- Nothing is subscribed at first.
pub none-Subscribed : (m : List (Text × ℕ)) (cs : List Central) → Subscribed m cs [] []
none-Subscribed m cs = record { listed = tt; tracked = λ p n e. cc }

module _ (m : List (Text × ℕ)) (cs : List Central) (ns : List (Text × ℕ))
    (made : List ServerNotifier) (l : Subscribed m cs ns made) where
  -- More centrals, and more that are connected.
  pub more-Subscribed :
      (m' : List (Text × ℕ)) (cs' : List Central)
      → ((q : ℕ) (a : Text) → addr_at cs q ≡ some a → addr_at cs' q ≡ some a)
      → ((a : Text) (q : ℕ) → find m a ≡ some q → find m' a ≡ some q)
      → Subscribed m' cs' ns made
  more-Subscribed m' cs' f g = record {
    listed = All-map ns entry l.listed;
    tracked = λ p n e r.
        let t = l.tracked p n e r in
        record { addr = t.addr; central = f n.c t.addr t.central; entry = t.entry };
  }
    where
      entry : (e : Text × ℕ) → IsListed m cs made e.0 e.1 → IsListed m' cs' made e.0 e.1
      entry e i = record {
        n = i.n;
        addr = i.addr;
        stored = i.stored;
        running = i.running;
        central = f i.n.c i.addr i.central;
        is_address = i.is_address;
        same_key = i.same_key;
        connected = g i.addr i.n.c i.connected;
      }

  -- An entry's notifier has the entry's key, so that entries with different keys have different
  -- notifiers.
  pub listed_apart :
      (j k : Text) (p q : ℕ)
      → IsListed m cs made j p
      → IsListed m cs made k q
      → bytes_equal j k ≡ false
      → p ≢ q
  listed_apart j k p q i i' d here =
      let one : some i.n ≡ some i'.n = sym i.stored ∙ ap (get_elem? made) here ∙ i'.stored in
      let n_same : i.n ≡ i'.n = cc in
      let both : some i.addr ≡ some i'.addr =
        sym i.central ∙ ap (λ (z : ServerNotifier). addr_at cs z.c) n_same ∙ i'.central in
      let a_same : i.addr ≡ i'.addr = cc in
      let keys : j ≡ k =
        sym i.same_key
        ∙ ap (λ (z : ServerNotifier). notifier_key z.char i.addr) n_same
        ∙ ap (notifier_key i'.n.char) a_same
        ∙ i'.same_key in
      let t : bytes_equal j k ≡ true = (bytes_equal_iff j k).1 keys in cc
