-- ===== src/Adv/FieldType.antt =====
-- adv.go: the types of advertising data fields, the constants type….
use gatt.Prelude.{ℕ}

abbrev pub flags : ℕ
flags = 0x01

abbrev pub some_uuid16 : ℕ
some_uuid16 = 0x02

abbrev pub all_uuid16 : ℕ
all_uuid16 = 0x03

abbrev pub some_uuid32 : ℕ
some_uuid32 = 0x04

abbrev pub all_uuid32 : ℕ
all_uuid32 = 0x05

abbrev pub some_uuid128 : ℕ
some_uuid128 = 0x06

abbrev pub all_uuid128 : ℕ
all_uuid128 = 0x07

abbrev pub short_name : ℕ
short_name = 0x08

abbrev pub complete_name : ℕ
complete_name = 0x09

abbrev pub tx_power : ℕ
tx_power = 0x0A

abbrev pub class_of_device : ℕ
class_of_device = 0x0D

abbrev pub simple_pairing_c192 : ℕ
simple_pairing_c192 = 0x0E

abbrev pub simple_pairing_r192 : ℕ
simple_pairing_r192 = 0x0F

abbrev pub sec_manager_tk : ℕ
sec_manager_tk = 0x10

abbrev pub sec_manager_oob : ℕ
sec_manager_oob = 0x11

abbrev pub slave_conn_int : ℕ
slave_conn_int = 0x12

abbrev pub service_sol16 : ℕ
service_sol16 = 0x14

abbrev pub service_sol128 : ℕ
service_sol128 = 0x15

abbrev pub service_data16 : ℕ
service_data16 = 0x16

abbrev pub pub_target_addr : ℕ
pub_target_addr = 0x17

abbrev pub rand_target_addr : ℕ
rand_target_addr = 0x18

abbrev pub appearance : ℕ
appearance = 0x19

abbrev pub adv_interval : ℕ
adv_interval = 0x1A

abbrev pub le_device_addr : ℕ
le_device_addr = 0x1B

abbrev pub le_role : ℕ
le_role = 0x1C

abbrev pub service_sol32 : ℕ
service_sol32 = 0x1F

abbrev pub service_data32 : ℕ
service_data32 = 0x20

abbrev pub service_data128 : ℕ
service_data128 = 0x21

abbrev pub le_sec_confirm : ℕ
le_sec_confirm = 0x22

abbrev pub le_sec_random : ℕ
le_sec_random = 0x23

abbrev pub manufacturer_data : ℕ
manufacturer_data = 0xFF
