-- ===== src/Att/ErrorCode.antt =====
-- const.go: the error codes of the attribute protocol, the constants AttrECode….
use gatt.Prelude.{ℕ}

abbrev pub success : ℕ
success = 0x00

abbrev pub invalid_handle : ℕ
invalid_handle = 0x01

abbrev pub read_not_perm : ℕ
read_not_perm = 0x02

abbrev pub write_not_perm : ℕ
write_not_perm = 0x03

abbrev pub invalid_pdu : ℕ
invalid_pdu = 0x04

abbrev pub authentication : ℕ
authentication = 0x05

abbrev pub req_not_supp : ℕ
req_not_supp = 0x06

abbrev pub invalid_offset : ℕ
invalid_offset = 0x07

abbrev pub authorization : ℕ
authorization = 0x08

abbrev pub prep_queue_full : ℕ
prep_queue_full = 0x09

abbrev pub attr_not_found : ℕ
attr_not_found = 0x0a

abbrev pub attr_not_long : ℕ
attr_not_long = 0x0b

abbrev pub insuff_encr_key_size : ℕ
insuff_encr_key_size = 0x0c

abbrev pub inval_attr_value_len : ℕ
inval_attr_value_len = 0x0d

abbrev pub unlikely : ℕ
unlikely = 0x0e

abbrev pub insuff_enc : ℕ
insuff_enc = 0x0f

abbrev pub unsupp_grp_type : ℕ
unsupp_grp_type = 0x10

abbrev pub insuff_resources : ℕ
insuff_resources = 0x11
