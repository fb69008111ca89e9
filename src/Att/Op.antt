-- ===== src/Att/Op.antt =====
-- const.go: the opcodes of the attribute protocol, the constants attrOp….
use gatt.Prelude.{ℕ}

abbrev pub error : ℕ
error = 0x01

abbrev pub mtu_req : ℕ
mtu_req = 0x02

abbrev pub mtu_resp : ℕ
mtu_resp = 0x03

abbrev pub find_info_req : ℕ
find_info_req = 0x04

abbrev pub find_info_resp : ℕ
find_info_resp = 0x05

abbrev pub find_by_type_value_req : ℕ
find_by_type_value_req = 0x06

abbrev pub find_by_type_value_resp : ℕ
find_by_type_value_resp = 0x07

abbrev pub read_by_type_req : ℕ
read_by_type_req = 0x08

abbrev pub read_by_type_resp : ℕ
read_by_type_resp = 0x09

abbrev pub read_req : ℕ
read_req = 0x0a

abbrev pub read_resp : ℕ
read_resp = 0x0b

abbrev pub read_blob_req : ℕ
read_blob_req = 0x0c

abbrev pub read_blob_resp : ℕ
read_blob_resp = 0x0d

abbrev pub read_multi_req : ℕ
read_multi_req = 0x0e

abbrev pub read_multi_resp : ℕ
read_multi_resp = 0x0f

abbrev pub read_by_group_req : ℕ
read_by_group_req = 0x10

abbrev pub read_by_group_resp : ℕ
read_by_group_resp = 0x11

abbrev pub write_req : ℕ
write_req = 0x12

abbrev pub write_resp : ℕ
write_resp = 0x13

abbrev pub write_cmd : ℕ
write_cmd = 0x52

abbrev pub prep_write_req : ℕ
prep_write_req = 0x16

abbrev pub prep_write_resp : ℕ
prep_write_resp = 0x17

abbrev pub exec_write_req : ℕ
exec_write_req = 0x18

abbrev pub exec_write_resp : ℕ
exec_write_resp = 0x19

abbrev pub handle_notify : ℕ
handle_notify = 0x1b

abbrev pub handle_ind : ℕ
handle_ind = 0x1d

abbrev pub handle_cnf : ℕ
handle_cnf = 0x1e

abbrev pub signed_write_cmd : ℕ
signed_write_cmd = 0xd2
