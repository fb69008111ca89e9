-- ===== src/Central/State/Live.antt =====
-- The notifiers that are not stopped are those that the map of the connection leads to.
use gatt.Prelude.{
  ℕ, zero, suc, ◌≡◌, ◌≢◌, refl, sym, ap, subst, ◌∙◌, List, [], ◌∷◌, ◌++◌, true, false, Option, none,
  some, arith, length, get_elem?, ◌==◌, ==_iff, ==_self, Bool-cases, Option-cases, inl, inr,
  Ensures,
}
use gatt.Prelude.{append_cases, old, last, get_elem?-append_old, get_elem?-append_last}
use gatt.AttrTable.{Attr, AttrRange, Pvt, service, characteristic, descriptor}
use gatt.Central.State.{
  Central, Notifier, find_notifier, delete_notifier, stop, start_notify, stop_notify, new_central,
}

pub record IsListed (c : Central) (h p : ℕ) : Type 0 where
  pub n : Notifier
  pub stored : get_elem? c.created p ≡ some n
  pub same_handle : n.a.h ≡ h
  pub running : n.done ≡ false

-- What the map leads to is a running notifier for that handle, and the map leads to every running
-- notifier; so a handle has at most one.
pub record Live (c : Central) : Type 0 where
  pub listed : (h p : ℕ) → find_notifier c.notifiers h ≡ some p → IsListed c h p
  pub tracked :
      (p : ℕ) (n : Notifier)
      → get_elem? c.created p ≡ some n
      → n.done ≡ false
      → find_notifier c.notifiers n.a.h ≡ some p

find-delete_same : (m : List (ℕ × ℕ)) (h : ℕ) → find_notifier (delete_notifier m h) h ≡ none
unfolding find_notifier delete_notifier
find-delete_same [] h = refl
find-delete_same ((j, p) ∷ m) h = elim (Bool-cases (j == h)) [
  | inl e ↦ rw e (find-delete_same m h)
  | inr e ↦ rw (e, e) (find-delete_same m h)
]

find-delete_other :
    (m : List (ℕ × ℕ)) (h k : ℕ)
    → (h == k) ≡ false
    → find_notifier (delete_notifier m h) k ≡ find_notifier m k
unfolding find_notifier delete_notifier
find-delete_other [] h k d = refl
find-delete_other ((j, p) ∷ m) h k d = elim (Bool-cases (j == h)) [
  | inl e ↦ let other : (j == k) ≡ false = ground arith in rw (e, other) (find-delete_other m h k d)
  | inr e ↦ elim (Bool-cases (j == k)) [
    | inl f ↦ rw (e, f) refl
    | inr f ↦ rw (e, f) (find-delete_other m h k d)
  ]
]

get_elem?-stop_other :
    (ns : List Notifier) (p q : ℕ) → p ≢ q → get_elem? (stop ns p) q ≡ get_elem? ns q
unfolding stop
get_elem?-stop_other [] p q d = refl
get_elem?-stop_other (n ∷ ns) zero zero d = absurd (d refl)
get_elem?-stop_other (n ∷ ns) zero (suc q) d = refl
get_elem?-stop_other (n ∷ ns) (suc p) zero d = refl
get_elem?-stop_other (n ∷ ns) (suc p) (suc q) d = get_elem?-stop_other ns p q (λ e. d (ap suc e))

-- A stopped notifier is done.
get_elem?-stop_same :
    (ns : List Notifier) (p : ℕ) (n : Notifier) → get_elem? (stop ns p) p ≡ some n → n.done ≡ true
unfolding stop
get_elem?-stop_same [] p n e = cc
get_elem?-stop_same (k ∷ ns) zero n e =
    let same : record k { done = true } ≡ n = cc in sym (ap (λ (x : Notifier). x.done) same)
get_elem?-stop_same (k ∷ ns) (suc p) n e = get_elem?-stop_same ns p n e

-- A connection starts with no notifier.
pub new_central-Live : (r : AttrRange) → Live (new_central r)
unfolding new_central find_notifier
new_central-Live r = record { listed = λ h p e. cc; tracked = λ p n e f. cc }

module _ (c : Central) (a : Attr) (max_len : ℕ) (l : Live c) where
  abbrev made : Notifier
  made = record { a = a; max_len = max_len; done = false }

  abbrev started : Central
  started = record c {
    notifiers = (a.h, length c.created) ∷ c.notifiers;
    created = c.created ++ (made ∷ []);
  }

  started-IsListed :
      find_notifier c.notifiers a.h ≡ none
      → (h p : ℕ) → find_notifier started.notifiers h ≡ some p
      → IsListed started h p
  unfolding find_notifier
  started-IsListed free h p e = elim (Bool-cases (a.h == h)) [
    | inl same ↦
        let at : some (length c.created) ≡ some p = rw same at e in
        let here : length c.created ≡ p = cc in
        record {
          n = made;
          stored =
              subst (λ q. get_elem? started.created q ≡ some made) here
                (get_elem?-append_last c.created made);
          same_handle = (==_iff a.h h).0 same;
          running = refl;
        }
    | inr other ↦
        let before : find_notifier c.notifiers h ≡ some p = rw other at e in
        let k = l.listed h p before in
        record {
          n = k.n;
          stored = get_elem?-append_old c.created made k.n p k.stored;
          same_handle = k.same_handle;
          running = k.running;
        }
  ]

  started-tracked :
      find_notifier c.notifiers a.h ≡ none
      → (p : ℕ) (n : Notifier) → get_elem? started.created p ≡ some n
      → n.done ≡ false
      → find_notifier started.notifiers n.a.h ≡ some p
  unfolding find_notifier
  started-tracked free p n e running = elim (append_cases c.created made n p e) [
    | last here new ↦
        subst (λ (k : Notifier). find_notifier started.notifiers k.a.h ≡ some p) new
          (rw (==_self a.h) (ap some here))
    | old f ↦
        let before = l.tracked p n f running in
        elim (Bool-cases (a.h == n.a.h)) [
          | inl same ↦
              let e' : a.h ≡ n.a.h = (==_iff a.h n.a.h).0 same in
              let clash : none ≡ some p = sym free ∙ ap (find_notifier c.notifiers) e' ∙ before in
              cc
          | inr other ↦ rw other before
        ]
  ]

  -- startNotify keeps the map and the running notifiers together.
  pub start_notify-Live : Ensures Live (start_notify c a max_len)
  unfolding start_notify
  start_notify-Live = go (find_notifier c.notifiers a.h) refl a.pvt refl
    where
      go :
          (o : Option ℕ)
          → find_notifier c.notifiers a.h ≡ o
          → (v : Pvt) → a.pvt ≡ v
          → Ensures Live (start_notify c a max_len)
      go (some q) e v f = rw (start_notify, e) l
      go none e (service s) f = rw (start_notify, e, f) tt
      go none e (characteristic k) f = rw (start_notify, e, f) tt
      go none e (descriptor d k) f = elim (Option-cases k.notify_handler) [
        | inl n ↦ rw (start_notify, e, f, n) tt
        | inr (serve, n) ↦
            rw (start_notify, e, f, n)
              (record { listed = started-IsListed e; tracked = started-tracked e })
      ]

module _ (c : Central) (a : Attr) (l : Live c) where
  module _ (q : ℕ) (e : find_notifier c.notifiers a.h ≡ some q) where
    abbrev stopped : Central
    stopped = record c { notifiers = delete_notifier c.notifiers a.h; created = stop c.created q }

    stopped-IsListed : (h p : ℕ) → find_notifier stopped.notifiers h ≡ some p → IsListed stopped h p
    stopped-IsListed h p f = elim (Bool-cases (a.h == h)) [
      | inl same ↦
          let e' : a.h ≡ h = (==_iff a.h h).0 same in
          let gone : none ≡ some p =
            sym (find-delete_same c.notifiers a.h)
            ∙ ap (find_notifier (delete_notifier c.notifiers a.h)) e'
            ∙ f in
          cc
      | inr other ↦
          let k = l.listed h p (sym (find-delete_other c.notifiers a.h h other) ∙ f) in
          let k' = l.listed a.h q e in
          let apart : q ≢ p = λ same. differ k k' other same in
          record {
            n = k.n;
            stored = get_elem?-stop_other c.created q p apart ∙ k.stored;
            same_handle = k.same_handle;
            running = k.running;
          }
    ]
      where
        differ : {h p : ℕ} → IsListed c h p → IsListed c a.h q → (a.h == h) ≡ false → q ≡ p → ⊥
        differ {h} k k' other same =
            let one : some k'.n ≡ some k.n =
              sym k'.stored ∙ ap (get_elem? c.created) same ∙ k.stored in
            let n_same : k'.n ≡ k.n = cc in
            let h_same : a.h ≡ h =
              sym k'.same_handle ∙ ap (λ (n : Notifier). n.a.h) n_same ∙ k.same_handle in
            let yes = (==_iff a.h h).1 h_same in cc

    stopped-tracked :
        (p : ℕ) (n : Notifier)
        → get_elem? stopped.created p ≡ some n
        → n.done ≡ false
        → find_notifier stopped.notifiers n.a.h ≡ some p
    stopped-tracked p n f running = elim (Bool-cases (q == p)) [
      | inl same ↦
          let q_p : q ≡ p = (==_iff q p).0 same in
          let done =
            get_elem?-stop_same c.created q n (ap (get_elem? (stop c.created q)) q_p ∙ f) in
          cc
      | inr other ↦
          let apart : q ≢ p = λ same. let yes = (==_iff q p).1 same in cc in
          let before = l.tracked p n (sym (get_elem?-stop_other c.created q p apart) ∙ f) running in
          elim (Bool-cases (a.h == n.a.h)) [
            | inl same ↦
                let here : some q ≡ some p =
                  sym e ∙ ap (find_notifier c.notifiers) ((==_iff a.h n.a.h).0 same) ∙ before in
                let q_p : q ≡ p = cc in absurd (apart q_p)
            | inr differ ↦ find-delete_other c.notifiers a.h n.a.h differ ∙ before
          ]
    ]

  -- stopNotify keeps the map and the running notifiers together.
  pub stop_notify-Live : Live (stop_notify c a)
  unfolding stop_notify
  stop_notify-Live = go (find_notifier c.notifiers a.h) refl
    where
      go : (o : Option ℕ) → find_notifier c.notifiers a.h ≡ o → Live (stop_notify c a)
      go none e = rw (stop_notify, e) l
      go (some q) e =
          rw (stop_notify, e)
            (record { listed = stopped-IsListed q e; tracked = stopped-tracked q e })

pub stop_notify-gone :
    (c : Central) (a : Attr) → find_notifier (stop_notify c a).notifiers a.h ≡ none
unfolding stop_notify
stop_notify-gone c a = go (find_notifier c.notifiers a.h) refl
  where
    go :
        (o : Option ℕ)
        → find_notifier c.notifiers a.h ≡ o
        → find_notifier (stop_notify c a).notifiers a.h ≡ none
    go none e = rw (stop_notify, e) e
    go (some q) e = rw (stop_notify, e) (find-delete_same c.notifiers a.h)
