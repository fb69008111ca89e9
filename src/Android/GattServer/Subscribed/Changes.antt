-- ===== src/Android/GattServer/Subscribed/Changes.antt =====
-- Subscriptions that end and begin.
use gatt.Prelude.{
  ℕ, ◌≡◌, ◌≢◌, refl, sym, ap, subst, ◌∙◌, List, [], ◌∷◌, ◌++◌, false, Option, none, some, length,
  bytes_equal, bytes_equal_iff, Bool-cases, Option-cases, inl, inr,
}
use gatt.Prelude.{
  update, get_elem?-update_other, get_elem?-append_old, get_elem?-append_last, append_cases, old,
  last,
}
use gatt.Android.Maps.{Text, find, erase, find-erase_other, bytes_equal_self}
use gatt.Android.GattServer.{Central, ServerNotifier, addr_at, notifier_key, stop}
use gatt.Android.GattServer.Connected.{IsAddress}
use gatt.Android.GattServer.Descriptors.{stop_existing}
use gatt.Android.GattServer.Subscribed.{
  IsListed, IsTracked, Entry, Subscribed, All-map, All-erase, All-find, running-update,
  listed_apart,
}

module _ (m : List (Text × ℕ)) (cs : List Central) (ns : List (Text × ℕ))
    (made : List ServerNotifier) (l : Subscribed m cs ns made) where
  -- An entry that is not the one of a key stays when that goes.
  IsTracked-still :
      (key : Text) (o : Option ℕ) (p : ℕ) (n : ServerNotifier)
      → find ns key ≡ o
      → o ≢ some p
      → IsTracked cs ns n p
      → IsTracked cs (erase ns key) n p
  IsTracked-still key o p n e d t = record {
    addr = t.addr;
    central = t.central;
    entry = elim (Bool-cases (bytes_equal key (notifier_key n.char t.addr))) [
      | inl h ↦
          let same : key ≡ notifier_key n.char t.addr =
            (bytes_equal_iff key (notifier_key n.char t.addr)).0 h in
          absurd (d (sym e ∙ ap (find ns) same ∙ t.entry))
      | inr h ↦ find-erase_other ns key (notifier_key n.char t.addr) h ∙ t.entry
    ];
  }

  IsListed-still :
      (key : Text) (q : ℕ)
      → find ns key ≡ some q
      → (e : Text × ℕ) → (bytes_equal e.0 key ≡ false) × IsListed m cs made e.0 e.1
      → IsListed m cs (update made q stop) e.0 e.1
  IsListed-still key q at e (d, i) =
      let apart : e.1 ≢ q =
        listed_apart m cs ns made l e.0 key e.1 q i
          (All-find (Entry m cs made) ns key q l.listed at) d in
      record {
        n = i.n;
        addr = i.addr;
        stored = get_elem?-update_other made q e.1 stop (λ h. apart (sym h)) ∙ i.stored;
        running = i.running;
        central = i.central;
        is_address = i.is_address;
        same_key = i.same_key;
        connected = i.connected;
      }

  -- The notifier of a key is stopped and its entry goes.
  pub clear-Subscribed :
      (key : Text) → Subscribed m cs (erase ns key) (stop_existing made (find ns key))
  unfolding stop_existing
  clear-Subscribed key = elim (Option-cases (find ns key)) [
    | inl e ↦ rw e (record {
      listed = All-map (erase ns key) (λ e i. i.1) (All-erase (Entry m cs made) ns key l.listed);
      tracked = λ p n s r. IsTracked-still key none p n e (λ h. cc) (l.tracked p n s r);
    })
    | inr (q, e) ↦ rw e (record {
      listed =
          All-map (erase ns key) (IsListed-still key q e)
            (All-erase (Entry m cs made) ns key l.listed);
      tracked = λ p n s r.
          let r' = running-update made q p n s r in
          IsTracked-still key (some q) p n e (λ h. r'.0 (some-inj h)) (l.tracked p n r'.1 r);
    })
  ]
    where
      some-inj : {q p : ℕ} → some q ≡ some p → q ≡ p
      some-inj h = cc

  -- A new notifier for a key that has none, of a central that is connected.
  pub add-Subscribed :
      (n : ServerNotifier) (addr : Text)
      → n.done ≡ false
      → IsAddress addr
      → addr_at cs n.c ≡ some addr
      → find m addr ≡ some n.c
      → find ns (notifier_key n.char addr) ≡ none
      → Subscribed m cs ((notifier_key n.char addr, length made) ∷ ns) (made ++ (n ∷ []))
  unfolding find
  add-Subscribed n addr running len central connected free = record {
    listed = (
      record {
        n = n;
        addr = addr;
        stored = get_elem?-append_last made n;
        running = running;
        central = central;
        is_address = len;
        same_key = refl;
        connected = connected;
      },
      All-map ns appended l.listed,
    );
    tracked = λ p k e r. elim (append_cases made n k p e) [
      | last h same ↦
          subst
            (λ (z : ServerNotifier).
              IsTracked cs ((notifier_key n.char addr, length made) ∷ ns) z p)
            same
            (record {
              addr = addr;
              central = central;
              entry = rw (bytes_equal_self (notifier_key n.char addr)) (ap some h);
            })
      | old s ↦
          let t = l.tracked p k s r in
          record {
            addr = t.addr;
            central = t.central;
            entry =
                elim (Bool-cases
                  (bytes_equal (notifier_key n.char addr) (notifier_key k.char t.addr))) [
                    | inl h ↦
                        let same : notifier_key n.char addr ≡ notifier_key k.char t.addr =
                          (bytes_equal_iff (notifier_key n.char addr)
                              (notifier_key k.char t.addr)).0
                            h in
                        let clash : none ≡ some p = sym free ∙ ap (find ns) same ∙ t.entry in cc
                    | inr h ↦ rw h t.entry
                  ];
          }
    ];
  }
    where
      appended :
          (e : Text × ℕ) → IsListed m cs made e.0 e.1 → IsListed m cs (made ++ (n ∷ [])) e.0 e.1
      appended e i = record {
        n = i.n;
        addr = i.addr;
        stored = get_elem?-append_old made n i.n e.1 i.stored;
        running = i.running;
        central = i.central;
        is_address = i.is_address;
        same_key = i.same_key;
        connected = i.connected;
      }
