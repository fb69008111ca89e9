-- ===== src/Hci/Command/LeConnection.antt =====
-- linux/cmd/cmd.go: the commands for scanning, connections and the allow list.
use gatt.Prelude.{ℕ, List, [], ◌∷◌, put_uint16, length}
use gatt.Hci.Bytes.{Address, put_uint8, put_mac}
use gatt.Hci.Command.{CmdParam, put, copy}
use gatt.Hci.Command.Opcode

pub record LeSetScanParameters : Type 0 where
  pub le_scan_type : ℕ
  pub le_scan_interval : ℕ
  pub le_scan_window : ℕ
  pub own_address_type : ℕ
  pub scanning_filter_policy : ℕ

abbrev pub le_set_scan_parameters : LeSetScanParameters → CmdParam
le_set_scan_parameters c = record {
  opcode = Opcode.le_set_scan_parameters;
  len = 7;
  writes =
      put 0 (put_uint8 c.le_scan_type)
      ∷ put 1 (put_uint16 c.le_scan_interval)
      ∷ put 3 (put_uint16 c.le_scan_window)
      ∷ put 5 (put_uint8 c.own_address_type)
      ∷ put 6 (put_uint8 c.scanning_filter_policy)
      ∷ [];
}

pub record LeSetScanEnable : Type 0 where
  pub le_scan_enable : ℕ
  pub filter_duplicates : ℕ

abbrev pub le_set_scan_enable : LeSetScanEnable → CmdParam
le_set_scan_enable c = record {
  opcode = Opcode.le_set_scan_enable;
  len = 2;
  writes = put 0 (put_uint8 c.le_scan_enable) ∷ put 1 (put_uint8 c.filter_duplicates) ∷ [];
}

pub record LeCreateConn : Type 0 where
  pub le_scan_interval : ℕ
  pub le_scan_window : ℕ
  pub initiator_filter_policy : ℕ
  pub peer_address_type : ℕ
  pub peer_address : Address
  pub own_address_type : ℕ
  pub conn_interval_min : ℕ
  pub conn_interval_max : ℕ
  pub conn_latency : ℕ
  pub supervision_timeout : ℕ
  pub minimum_ce_length : ℕ
  pub maximum_ce_length : ℕ

abbrev pub le_create_conn : LeCreateConn → CmdParam
le_create_conn c = record {
  opcode = Opcode.le_create_conn;
  len = 25;
  writes =
      put 0 (put_uint16 c.le_scan_interval)
      ∷ put 2 (put_uint16 c.le_scan_window)
      ∷ put 4 (put_uint8 c.initiator_filter_policy)
      ∷ put 5 (put_uint8 c.peer_address_type)
      ∷ put 6 (put_mac c.peer_address)
      ∷ put 12 (put_uint8 c.own_address_type)
      ∷ put 13 (put_uint16 c.conn_interval_min)
      ∷ put 15 (put_uint16 c.conn_interval_max)
      ∷ put 17 (put_uint16 c.conn_latency)
      ∷ put 19 (put_uint16 c.supervision_timeout)
      ∷ put 21 (put_uint16 c.minimum_ce_length)
      ∷ put 23 (put_uint16 c.maximum_ce_length)
      ∷ [];
}

abbrev pub le_create_conn_cancel : CmdParam
le_create_conn_cancel = record { opcode = Opcode.le_create_conn_cancel; len = 0; writes = [] }

abbrev pub le_read_allow_list_size : CmdParam
le_read_allow_list_size = record { opcode = Opcode.le_read_allow_list_size; len = 0; writes = [] }

abbrev pub le_clear_allow_list : CmdParam
le_clear_allow_list = record { opcode = Opcode.le_clear_allow_list; len = 0; writes = [] }

pub record LeAddDeviceToAllowList : Type 0 where
  pub address_type : ℕ
  pub address : Address

abbrev pub le_add_device_to_allow_list : LeAddDeviceToAllowList → CmdParam
le_add_device_to_allow_list c = record {
  opcode = Opcode.le_add_device_to_allow_list;
  len = 7;
  writes = put 0 (put_uint8 c.address_type) ∷ put 1 (put_mac c.address) ∷ [];
}

pub record LeRemoveDeviceFromAllowList : Type 0 where
  pub address_type : ℕ
  pub address : Address

abbrev pub le_remove_device_from_allow_list : LeRemoveDeviceFromAllowList → CmdParam
le_remove_device_from_allow_list c = record {
  opcode = Opcode.le_remove_device_from_allow_list;
  len = 7;
  writes = put 0 (put_uint8 c.address_type) ∷ put 1 (put_mac c.address) ∷ [];
}

pub record LeConnUpdate : Type 0 where
  pub connection_handle : ℕ
  pub conn_interval_min : ℕ
  pub conn_interval_max : ℕ
  pub conn_latency : ℕ
  pub supervision_timeout : ℕ
  pub minimum_ce_length : ℕ
  pub maximum_ce_length : ℕ

abbrev pub le_conn_update : LeConnUpdate → CmdParam
le_conn_update c = record {
  opcode = Opcode.le_conn_update;
  len = 14;
  writes =
      put 0 (put_uint16 c.connection_handle)
      ∷ put 2 (put_uint16 c.conn_interval_min)
      ∷ put 4 (put_uint16 c.conn_interval_max)
      ∷ put 6 (put_uint16 c.conn_latency)
      ∷ put 8 (put_uint16 c.supervision_timeout)
      ∷ put 10 (put_uint16 c.minimum_ce_length)
      ∷ put 12 (put_uint16 c.maximum_ce_length)
      ∷ [];
}

abbrev pub le_set_host_channel_classification : List ℕ → CmdParam
le_set_host_channel_classification channel_map = record {
  opcode = Opcode.le_set_host_channel_classification;
  len = 5;
  writes = copy 0 (length channel_map) channel_map ∷ [];
}
