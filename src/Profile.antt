-- ===== src/Profile.antt =====
-- common.go: services, characteristics and descriptors, as the application builds them.
use gatt.Prelude.{ℕ, List, [], ◌∷◌, ◌++◌, Bool, true, false, Option, none, some}
use gatt.Prelude.{length, Run, ok, panic, bit_or, bit_and, ◌==◌, if◌then◌else◌}
use gatt.Uuid.{Uuid, equal}
use gatt.Att.{attr_client_characteristic_config_uuid}

-- Characteristic property flags.
abbrev pub char_read : ℕ
char_read = 0x02

abbrev pub char_write_nr : ℕ
char_write_nr = 0x04

abbrev pub char_write : ℕ
char_write = 0x08

abbrev pub char_notify : ℕ
char_notify = 0x10

abbrev pub char_indicate : ℕ
char_indicate = 0x20

-- The application's handlers. A read handler is given the capacity and the offset, and what it does
-- to the ResponseWriter is the list of its calls of Write. A write handler returns its status. Of a
-- notify handler the library only keeps and starts the value, which a number stands for.
abbrev pub ReadHandler : Type 0
ReadHandler = ℕ → ℕ → List (List ℕ)

abbrev pub WriteHandler : Type 0
WriteHandler = List ℕ → ℕ

abbrev pub NotifyHandler : Type 0
NotifyHandler = ℕ

-- `none` is a nil value or handler. The back pointer `char` is given where a descriptor is reached.
pub record Descriptor : Type 0 where
  pub uuid : Uuid
  pub props : ℕ
  pub secure : ℕ
  pub h : ℕ
  pub value : Option (List ℕ)
  pub value_str : List ℕ
  pub read_handler : Option ReadHandler
  pub write_handler : Option WriteHandler

-- `cccd` points to a descriptor of `descs`: it is that one's position.
pub record Characteristic : Type 0 where
  pub uuid : Uuid
  pub props : ℕ
  pub secure : ℕ
  pub cccd : Option ℕ
  pub descs : List Descriptor
  pub value : Option (List ℕ)
  pub read_handler : Option ReadHandler
  pub write_handler : Option WriteHandler
  pub notify_handler : Option NotifyHandler
  pub h : ℕ
  pub vh : ℕ
  pub endh : ℕ

pub record Service : Type 0 where
  pub uuid : Uuid
  pub chars : List Characteristic
  pub h : ℕ
  pub endh : ℕ

unfoldable pub new_service : Uuid → Service
new_service u = record { uuid = u; chars = []; h = 0; endh = 0 }

abbrev fresh_characteristic : Uuid → Characteristic
fresh_characteristic u = record {
  uuid = u;
  props = 0;
  secure = 0;
  cccd = none;
  descs = [];
  value = none;
  read_handler = none;
  write_handler = none;
  notify_handler = none;
  h = 0;
  vh = 0;
  endh = 0;
}

has_characteristic : List Characteristic → Uuid → Bool
unfolding equal
has_characteristic [] u = false
has_characteristic (c ∷ cs) u = if equal c.uuid u then true else has_characteristic cs u

-- AddCharacteristic. The new characteristic is the last of `chars`, where the caller configures it
-- through the pointer that Go returns.
unfoldable pub add_characteristic : Service → Uuid → Run Service
unfolding has_characteristic
add_characteristic s u =
    if has_characteristic s.chars u
    then panic
    else ok (record s { chars = s.chars ++ (fresh_characteristic u ∷ []) })

-- Characteristic.SetValue
unfoldable pub set_value : Characteristic → List ℕ → Run Characteristic
set_value c b = elim c.read_handler [
  | some f ↦ panic
  | none ↦ ok (record c { props = bit_or c.props char_read; value = some b })
]

-- Characteristic.HandleRead
unfoldable pub handle_read : Characteristic → ReadHandler → Run Characteristic
handle_read c f = elim c.value [
  | some v ↦ panic
  | none ↦ ok (record c { props = bit_or c.props char_read; read_handler = some f })
]

-- Characteristic.HandleWrite
unfoldable pub handle_write : Characteristic → WriteHandler → Characteristic
handle_write c f = record c {
  props = bit_or c.props (bit_or char_write char_write_nr);
  write_handler = some f;
}

-- The client characteristic configuration descriptor that HandleNotify adds.
unfoldable pub ccc_descriptor : ℕ → Descriptor
ccc_descriptor secure = record {
  uuid = attr_client_characteristic_config_uuid;
  props = bit_or (bit_or char_read char_write) char_write_nr;
  secure =
      if bit_and secure (bit_or char_notify char_indicate) == 0
      then 0
      else bit_or char_read char_write;
  h = 0;
  value = some (0 ∷ 0 ∷ []);
  value_str = [];
  read_handler = none;
  write_handler = none;
}

-- Characteristic.HandleNotify
unfoldable pub handle_notify : Characteristic → NotifyHandler → Characteristic
unfolding ccc_descriptor
handle_notify c f = elim c.cccd [
  | some d ↦ c
  | none ↦ record c {
    props = bit_or c.props (bit_or char_notify char_indicate);
    notify_handler = some f;
    cccd = some (length c.descs);
    descs = c.descs ++ (ccc_descriptor c.secure ∷ []);
  }
]

abbrev fresh_descriptor : Uuid → Descriptor
fresh_descriptor u = record {
  uuid = u;
  props = 0;
  secure = 0;
  h = 0;
  value = none;
  value_str = [];
  read_handler = none;
  write_handler = none;
}

has_descriptor : List Descriptor → Uuid → Bool
unfolding equal
has_descriptor [] u = false
has_descriptor (d ∷ ds) u = if equal d.uuid u then true else has_descriptor ds u

-- AddDescriptor; as above, the new descriptor is the last of `descs`.
unfoldable pub add_descriptor : Characteristic → Uuid → Run Characteristic
unfolding has_descriptor
add_descriptor c u =
    if has_descriptor c.descs u
    then panic
    else ok (record c { descs = c.descs ++ (fresh_descriptor u ∷ []) })

-- The methods of Descriptor.
module _ (d : Descriptor) where
  unfoldable pub set_descriptor_value : List ℕ → Run Descriptor
  set_descriptor_value b = elim d.read_handler [
    | some f ↦ panic
    | none ↦ ok (record d { props = bit_or d.props char_read; value = some b })
  ]

  unfoldable pub set_string_value : List ℕ → Run Descriptor
  set_string_value s = elim d.read_handler [
    | some f ↦ panic
    | none ↦ ok (record d { props = bit_or d.props char_read; value_str = s })
  ]

  unfoldable pub handle_descriptor_read : ReadHandler → Run Descriptor
  handle_descriptor_read f = elim d.value [
    | some v ↦ panic
    | none ↦ ok (record d { props = bit_or d.props char_read; read_handler = some f })
  ]

  unfoldable pub handle_descriptor_write : WriteHandler → Descriptor
  handle_descriptor_write f = record d {
    props = bit_or d.props (bit_or char_write char_write_nr);
    write_handler = some f;
  }
