-- ===== src/Central/State.antt =====
-- central_linux.go and central.go: the state of a connection with a remote central, and its
-- notifiers.
pub mod Live
use gatt.Prelude.{
  ℕ, zero, suc, ◌+◌, ◌-◌, ◌%◌, List, [], ◌∷◌, ◌++◌, Bool, true, false, Option, none, some,
}
use gatt.Prelude.{Run, ok, panic, length, ◌==◌, if◌then◌else◌}
use gatt.AttrTable.{AttrRange, Attr, service, characteristic, descriptor}

-- `a` is the attribute of the configuration descriptor, copied when the notifier is made.
pub record Notifier : Type 0 where
  pub a : Attr
  pub max_len : ℕ
  pub done : Bool

-- `created` holds every notifier made for the connection, which the application's handlers keep; the
-- map `notifiers` leads from an attribute handle to a position in it.
pub record Central : Type 0 where
  pub attrs : AttrRange
  pub mtu : ℕ
  pub security : ℕ
  pub notifiers : List (ℕ × ℕ)
  pub created : List Notifier

abbrev pub security_low : ℕ
security_low = 0

unfoldable pub new_central : AttrRange → Central
new_central a = record {
  attrs = a;
  mtu = 23;
  security = security_low;
  notifiers = [];
  created = [];
}

-- `c.mtu - k` on uint16.
abbrev pub mtu_minus : Central → ℕ → ℕ
mtu_minus c k = (c.mtu + 65536 - k) % 65536

unfoldable pub find_notifier : List (ℕ × ℕ) → ℕ → Option ℕ
find_notifier [] h = none
find_notifier ((j, p) ∷ m) h = if j == h then some p else find_notifier m h

unfoldable pub delete_notifier : List (ℕ × ℕ) → ℕ → List (ℕ × ℕ)
delete_notifier [] h = []
delete_notifier ((j, p) ∷ m) h =
    if j == h then delete_notifier m h else (j, p) ∷ delete_notifier m h

-- notifier.stop, on the notifier at a position.
unfoldable pub stop : List Notifier → ℕ → List Notifier
stop [] p = []
stop (n ∷ ns) zero = record n { done = true } ∷ ns
stop (n ∷ ns) (suc p) = n ∷ stop ns p

-- The call of the application's handler is started and leaves the state alone; with no handler it
-- ends the program.
unfoldable pub start_notify : Central → Attr → ℕ → Run Central
start_notify c a max_len = elim (find_notifier c.notifiers a.h) [
  | some p ↦ ok c
  | none ↦ elim a.pvt [
    | descriptor d char ↦ elim char.notify_handler [
      | none ↦ panic
      | some serve ↦ ok (record c {
        notifiers = (a.h, length c.created) ∷ c.notifiers;
        created = c.created ++ (record { a = a; max_len = max_len; done = false } ∷ []);
      })
    ]
    | service s ↦ panic
    | characteristic char ↦ panic
  ]
]

unfoldable pub stop_notify : Central → Attr → Central
stop_notify c a = elim (find_notifier c.notifiers a.h) [
  | none ↦ c
  | some p ↦ record c { notifiers = delete_notifier c.notifiers a.h; created = stop c.created p }
]

-- Close stops the notifiers of the map; then it closes the connection.
unfoldable pub stop_all : List (ℕ × ℕ) → List Notifier → List Notifier
stop_all [] ns = ns
stop_all ((h, p) ∷ m) ns = stop_all m (stop ns p)

unfoldable pub close : Central → Central
close c = record c { created = stop_all c.notifiers c.created }
