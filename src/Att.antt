-- ===== src/Att.antt =====
-- const.go: the attribute protocol's opcodes, error codes, UUIDs and error response.
pub mod Op
pub mod ErrorCode
use gatt.Prelude.{ℕ, ◌%◌, ◌/◌, List, [], ◌∷◌, ◌==◌, if◌then◌else◌}
use gatt.Uuid.{Uuid, uuid16}

abbrev pub attr_gap_uuid : Uuid
attr_gap_uuid = uuid16 0x1800

abbrev pub attr_gatt_uuid : Uuid
attr_gatt_uuid = uuid16 0x1801

abbrev pub attr_primary_service_uuid : Uuid
attr_primary_service_uuid = uuid16 0x2800

abbrev pub attr_characteristic_uuid : Uuid
attr_characteristic_uuid = uuid16 0x2803

abbrev pub attr_client_characteristic_config_uuid : Uuid
attr_client_characteristic_config_uuid = uuid16 0x2902

-- gattCCCNotifyFlag | gattCCCIndicateFlag
abbrev pub gatt_ccc_flags : ℕ
gatt_ccc_flags = 0x0003

pub record AttrErr : Type 0 where
  pub op_code : ℕ
  pub attr : ℕ
  pub status : ℕ

unfoldable pub marshal : AttrErr → List ℕ
marshal e = Op.error ∷ e.op_code ∷ e.attr % 256 ∷ e.attr / 256 % 256 ∷ e.status ∷ []

unfoldable pub att_error_resp : ℕ → ℕ → ℕ → List ℕ
unfolding marshal
att_error_resp op h s = marshal (record { op_code = op; attr = h; status = s })

-- The map attRespFor. A key that it lacks reads as 0, the zero byte.
unfoldable pub att_resp_for : ℕ → ℕ
att_resp_for op =
    if op == Op.mtu_req
    then Op.mtu_resp
    else if op == Op.find_info_req
    then Op.find_info_resp
    else if op == Op.find_by_type_value_req
    then Op.find_by_type_value_resp
    else if op == Op.read_by_type_req
    then Op.read_by_type_resp
    else if op == Op.read_req
    then Op.read_resp
    else if op == Op.read_blob_req
    then Op.read_blob_resp
    else if op == Op.read_multi_req
    then Op.read_multi_resp
    else if op == Op.read_by_group_req
    then Op.read_by_group_resp
    else if op == Op.write_req
    then Op.write_resp
    else if op == Op.prep_write_req
    then Op.prep_write_resp
    else if op == Op.exec_write_req
    then Op.exec_write_resp
    else 0
