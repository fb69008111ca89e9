-- ===== src/Android/GattServer/Subscribed/Modes.antt =====
-- The mode of a subscription, and how it changes with the map of notifiers.
use gatt.Prelude.{
  ℕ, ◌≡◌, ◌≢◌, refl, sym, ap, ◌∙◌, List, [], ◌∷◌, ◌++◌, Bool, true, false, Option, none, some,
  arith, length, get_elem?, bytes_equal, bytes_equal_iff, if◌then◌else◌, length-append, take,
  take_left, Bool-cases, Option-cases, inl, inr,
}
use gatt.Prelude.{get_elem?-update_other, get_elem?-append_old, get_elem?-append_last}
use gatt.Android.Maps.{
  Text, find, erase, has_suffix, find-erase_other, find-erase_same, bytes_equal_self,
}
use gatt.Android.GattServer.{
  Central, ServerNotifier, GattServer, notifier_key, stop, owner, belongs, pop_entries, stop_each,
}
use gatt.Android.GattServer.Connected.{IsAddress}
use gatt.Android.GattServer.Descriptors.{stop_existing, cccd_value}
use gatt.Android.GattServer.Subscribed.{IsListed, Entry, Subscribed, All-find, listed_apart}
use gatt.Android.GattServer.Subscribed.Popped.{
  has_suffix-notifier_key, kept-owner, popped-owner, find-popped, find-kept_none, belongs-listed,
  owner-listed, get_elem?-stop_each, stopped_apart,
}

-- `some true` is a subscription to indications, `some false` one to notifications.
pub mode_of : Option ServerNotifier → Option Bool
mode_of none = none
mode_of (some n) = if n.done then none else some n.confirm

unfoldable pub mode : List (Text × ℕ) → List ServerNotifier → Text → Option Bool
unfolding find mode_of
mode ns made key = elim (find ns key) [ none ↦ none | some p ↦ mode_of (get_elem? made p) ]

pub mode-none :
    (ns : List (Text × ℕ)) (made : List ServerNotifier) (k : Text)
    → find ns k ≡ none
    → mode ns made k ≡ none
unfolding mode
mode-none ns made k e = rw (mode, e) refl

pub mode-some :
    (ns : List (Text × ℕ)) (made : List ServerNotifier) (k : Text) (p : ℕ)
    → find ns k ≡ some p
    → mode ns made k ≡ mode_of (get_elem? made p)
unfolding mode mode_of
mode-some ns made k p e = rw (mode, e) refl

pub mode-running :
    (ns : List (Text × ℕ)) (made : List ServerNotifier) (k : Text) (p : ℕ) (n : ServerNotifier)
    → find ns k ≡ some p
    → get_elem? made p ≡ some n
    → n.done ≡ false
    → mode ns made k ≡ some n.confirm
unfolding mode_of
mode-running ns made k p n e s r = mode-some ns made k p e ∙ ap mode_of s ∙ rw r refl

mode_cong :
    (ns ns' : List (Text × ℕ)) (made made' : List ServerNotifier) (k k' : Text)
    → find ns k ≡ find ns' k'
    → ((p : ℕ) → find ns k ≡ some p → get_elem? made p ≡ get_elem? made' p)
    → mode ns made k ≡ mode ns' made' k'
mode_cong ns ns' made made' k k' e f = elim (Option-cases (find ns k)) [
  | inl g ↦ mode-none ns made k g ∙ sym (mode-none ns' made' k' (sym e ∙ g))
  | inr (p, g) ↦
      mode-some ns made k p g ∙ ap mode_of (f p g) ∙ sym (mode-some ns' made' k' p (sym e ∙ g))
]

-- The value of the configuration descriptor in a mode.
unfoldable pub cccd_bytes : Option Bool → List ℕ
cccd_bytes none = 0 ∷ 0 ∷ []
cccd_bytes (some true) = 2 ∷ 0 ∷ []
cccd_bytes (some false) = 1 ∷ 0 ∷ []

pub cccd_value-mode :
    (gs : GattServer) (key : Text)
    → cccd_value gs key ≡ cccd_bytes (mode gs.notifiers gs.made_notifiers key)
unfolding cccd_value mode cccd_bytes mode_of
cccd_value-mode gs key = elim (Option-cases (find gs.notifiers key)) [
  | inl e ↦ rw (cccd_value, mode, e) refl
  | inr (p, e) ↦ elim (Option-cases (get_elem? gs.made_notifiers p)) [
    | inl f ↦ rw (cccd_value, mode, e, f) refl
    | inr (n, f) ↦ rw (cccd_value, mode, e, f) (values n.done n.confirm)
  ]
]
  where
    values :
        (d c : Bool)
        → (if d then 0 ∷ 0 ∷ [] else if c then 2 ∷ 0 ∷ [] else 1 ∷ 0 ∷ [])
          ≡ cccd_bytes (if d then none else some c)
    values true c = refl
    values false true = refl
    values false false = refl

pub notifier_key-addr :
    (u v a b : Text) → notifier_key u a ≡ notifier_key v b → IsAddress a → IsAddress b → a ≡ b
notifier_key-addr u v a b e la lb = (bytes_equal_iff a b).0 (
    sym (has_suffix-notifier_key u a b (la ∙ sym lb))
    ∙ ap (λ k. has_suffix k (58 ∷ b)) e
    ∙ has_suffix-notifier_key v b b refl
    ∙ bytes_equal_self b)

pub notifier_key-uuid :
    (u v a b : Text) → notifier_key u a ≡ notifier_key v b → IsAddress a → IsAddress b → u ≡ v
unfolding notifier_key
notifier_key-uuid u v a b e la lb =
    let lu = length-append u (58 ∷ a) in
    let lv = length-append v (58 ∷ b) in
    let total : length (u ++ (58 ∷ a)) ≡ length (v ++ (58 ∷ b)) = ap length e in
    let same : length u ≡ length v = omega (arith, lu, lv, total, la, lb) in
    sym (take_left u (58 ∷ a))
    ∙ ap (take (length u)) e
    ∙ ap (λ n. take n (v ++ (58 ∷ b))) same
    ∙ take_left v (58 ∷ b)

module _ (m : List (Text × ℕ)) (cs : List Central) (ns : List (Text × ℕ))
    (made : List ServerNotifier) (l : Subscribed m cs ns made) where
  pub mode-clear :
      (key k : Text)
      → mode (erase ns key) (stop_existing made (find ns key)) k
        ≡ (if bytes_equal key k then none else mode ns made k)
  unfolding stop_existing
  mode-clear key k = elim (Bool-cases (bytes_equal key k)) [
    | inl e ↦ rw e (
        mode-none (erase ns key) (stop_existing made (find ns key)) k
          (ap (find (erase ns key)) (sym ((bytes_equal_iff key k).0 e)) ∙ find-erase_same ns key))
    | inr e ↦ rw e (
        mode_cong (erase ns key) ns (stop_existing made (find ns key)) made k k
          (find-erase_other ns key k e)
          (λ p f. kept e p (sym (find-erase_other ns key k e) ∙ f) (find ns key) refl))
  ]
    where
      kept :
          bytes_equal key k ≡ false
          → (p : ℕ) → find ns k ≡ some p
          → (o : Option ℕ) → find ns key ≡ o
          → get_elem? (stop_existing made o) p ≡ get_elem? made p
      kept e p f none g = refl
      kept e p f (some q) g =
          (get_elem?-update_other made q p stop (
            listed_apart m cs ns made l key k q p (All-find (Entry m cs made) ns key q l.listed g)
              (All-find (Entry m cs made) ns k p l.listed f) e))

  pub mode-add :
      (n : ServerNotifier) (key k : Text)
      → n.done ≡ false
      → mode ((key, length made) ∷ ns) (made ++ (n ∷ [])) k
        ≡ (if bytes_equal key k then some n.confirm else mode ns made k)
  unfolding mode_of find
  mode-add n key k r = elim (Bool-cases (bytes_equal key k)) [
    | inl e ↦ rw e (
        mode-some ((key, length made) ∷ ns) (made ++ (n ∷ [])) k (length made) (rw e refl)
        ∙ ap mode_of (get_elem?-append_last made n)
        ∙ rw r refl)
    | inr e ↦ rw e (
        mode_cong ((key, length made) ∷ ns) ns (made ++ (n ∷ [])) made k k (rw e refl)
          (λ p f. old_one p (rw e at f)))
  ]
    where
      old_one : (p : ℕ) → find ns k ≡ some p → get_elem? (made ++ (n ∷ [])) p ≡ get_elem? made p
      old_one p f =
          let i = All-find (Entry m cs made) ns k p l.listed f in
          get_elem?-append_old made n i.n p i.stored ∙ sym i.stored

module _ (gs : GattServer) (m : List (Text × ℕ)) (b : Text) (len : IsAddress b)
    (l : Subscribed m gs.made_centrals gs.notifiers gs.made_notifiers) where
  pub mode-pop :
      (u a : Text)
      → IsAddress a
      → mode
          (pop_entries gs b gs.notifiers).0
          (stop_each (pop_entries gs b gs.notifiers).1 gs.made_notifiers)
          (notifier_key u a)
        ≡ (if bytes_equal b a then none else mode gs.notifiers gs.made_notifiers (notifier_key u a))
  mode-pop u a la = elim (Bool-cases (bytes_equal b a)) [
    | inl e ↦ rw e (
        mode-none (pop_entries gs b gs.notifiers).0
          (stop_each (pop_entries gs b gs.notifiers).1 gs.made_notifiers) (notifier_key u a)
          (gone ((bytes_equal_iff b a).0 e)))
    | inr e ↦ rw e (
        mode_cong (pop_entries gs b gs.notifiers).0 gs.notifiers
          (stop_each (pop_entries gs b gs.notifiers).1 gs.made_notifiers) gs.made_notifiers
          (notifier_key u a) (notifier_key u a) (same_entry e) kept)
  ]
    where
      entry :
          (p : ℕ)
          → find (pop_entries gs b gs.notifiers).0 (notifier_key u a) ≡ some p
          → IsListed m gs.made_centrals gs.made_notifiers (notifier_key u a) p
            × (owner gs p ≢ some b)
      entry p f =
          All-find
            (λ (e : Text × ℕ).
              IsListed m gs.made_centrals gs.made_notifiers e.0 e.1 × (owner gs e.1 ≢ some b))
            (pop_entries gs b gs.notifiers).0 (notifier_key u a) p
            (kept-owner gs m b len gs.notifiers l.listed) f

      kept :
          (p : ℕ)
          → find (pop_entries gs b gs.notifiers).0 (notifier_key u a) ≡ some p
          → get_elem? (stop_each (pop_entries gs b gs.notifiers).1 gs.made_notifiers) p
            ≡ get_elem? gs.made_notifiers p
      kept p f = get_elem?-stop_each (pop_entries gs b gs.notifiers).1 gs.made_notifiers p (
          stopped_apart gs m b len l (pop_entries gs b gs.notifiers).1 p
            (popped-owner gs m b len gs.notifiers l.listed) (entry p f).1)

      its_addr :
          (p : ℕ) (i : IsListed m gs.made_centrals gs.made_notifiers (notifier_key u a) p)
          → i.addr ≡ a
      its_addr p i = notifier_key-addr i.n.char u i.addr a i.same_key i.is_address la

      gone : b ≡ a → find (pop_entries gs b gs.notifiers).0 (notifier_key u a) ≡ none
      gone e = elim (Option-cases (find (pop_entries gs b gs.notifiers).0 (notifier_key u a))) [
        | inl f ↦ f
        | inr (p, f) ↦
            let i = entry p f in
            absurd
              (i.1 (owner-listed gs m (notifier_key u a) p i.0 ∙ ap some (its_addr p i.0 ∙ sym e)))
      ]

      stays :
          bytes_equal b a ≡ false
          → (p : ℕ) → find gs.notifiers (notifier_key u a) ≡ some p
          → belongs gs b (notifier_key u a) p ≡ false
      stays e p f =
          let i =
            All-find (Entry m gs.made_centrals gs.made_notifiers) gs.notifiers (notifier_key u a) p
              l.listed f in
          belongs-listed gs m b (notifier_key u a) p i len
          ∙ ap (λ x. bytes_equal x b) (its_addr p i)
          ∙ differ
        where
          differ : bytes_equal a b ≡ false
          differ = elim (Bool-cases (bytes_equal a b)) [
            | inl t ↦
                let same : a ≡ b = (bytes_equal_iff a b).0 t in
                let t' : bytes_equal b a ≡ true = (bytes_equal_iff b a).1 (sym same) in cc
            | inr t ↦ t
          ]

      same_entry :
          bytes_equal b a ≡ false
          → find (pop_entries gs b gs.notifiers).0 (notifier_key u a)
            ≡ find gs.notifiers (notifier_key u a)
      same_entry e = elim (Option-cases (find gs.notifiers (notifier_key u a))) [
        | inl f ↦ find-kept_none gs m b len gs.notifiers (notifier_key u a) f ∙ sym f
        | inr (p, f) ↦
            find-popped gs m b len gs.notifiers (notifier_key u a) p f (stays e p f) ∙ sym f
      ]
