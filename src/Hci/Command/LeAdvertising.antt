-- ===== src/Hci/Command/LeAdvertising.antt =====
-- linux/cmd/cmd.go: the commands for events, addresses and advertising.
use gatt.Prelude.{ℕ, List, [], ◌∷◌, put_uint16}
use gatt.Hci.Bytes.{Address, put_uint8, put_uint64, put_mac}
use gatt.Hci.Command.{CmdParam, put, copy}
use gatt.Hci.Command.Opcode

abbrev pub le_set_event_mask : ℕ → CmdParam
le_set_event_mask le_event_mask = record {
  opcode = Opcode.le_set_event_mask;
  len = 8;
  writes = put 0 (put_uint64 le_event_mask) ∷ [];
}

abbrev pub le_read_buffer_size : CmdParam
le_read_buffer_size = record { opcode = Opcode.le_read_buffer_size; len = 1; writes = [] }

abbrev pub le_read_local_supported_features : CmdParam
le_read_local_supported_features = record {
  opcode = Opcode.le_read_local_supported_features;
  len = 0;
  writes = [];
}

abbrev pub le_set_random_address : Address → CmdParam
le_set_random_address random_address = record {
  opcode = Opcode.le_set_random_address;
  len = 6;
  writes = put 0 (put_mac random_address) ∷ [];
}

pub record LeSetAdvertisingParameters : Type 0 where
  pub advertising_interval_min : ℕ
  pub advertising_interval_max : ℕ
  pub advertising_type : ℕ
  pub own_address_type : ℕ
  pub direct_address_type : ℕ
  pub direct_address : Address
  pub advertising_channel_map : ℕ
  pub advertising_filter_policy : ℕ

abbrev pub le_set_advertising_parameters : LeSetAdvertisingParameters → CmdParam
le_set_advertising_parameters c = record {
  opcode = Opcode.le_set_advertising_parameters;
  len = 15;
  writes =
      put 0 (put_uint16 c.advertising_interval_min)
      ∷ put 2 (put_uint16 c.advertising_interval_max)
      ∷ put 4 (put_uint8 c.advertising_type)
      ∷ put 5 (put_uint8 c.own_address_type)
      ∷ put 6 (put_uint8 c.direct_address_type)
      ∷ put 7 (put_mac c.direct_address)
      ∷ put 13 (put_uint8 c.advertising_channel_map)
      ∷ put 14 (put_uint8 c.advertising_filter_policy)
      ∷ [];
}

abbrev pub le_read_advertising_channel_tx_power : CmdParam
le_read_advertising_channel_tx_power = record {
  opcode = Opcode.le_read_advertising_channel_tx_power;
  len = 0;
  writes = [];
}

pub record LeSetAdvertisingData : Type 0 where
  pub advertising_data_length : ℕ
  pub advertising_data : List ℕ

abbrev pub le_set_advertising_data : LeSetAdvertisingData → CmdParam
le_set_advertising_data c = record {
  opcode = Opcode.le_set_advertising_data;
  len = 32;
  writes =
      put 0 (put_uint8 c.advertising_data_length)
      ∷ copy 1 c.advertising_data_length c.advertising_data
      ∷ [];
}

pub record LeSetScanResponseData : Type 0 where
  pub scan_response_data_length : ℕ
  pub scan_response_data : List ℕ

abbrev pub le_set_scan_response_data : LeSetScanResponseData → CmdParam
le_set_scan_response_data c = record {
  opcode = Opcode.le_set_scan_response_data;
  len = 32;
  writes =
      put 0 (put_uint8 c.scan_response_data_length)
      ∷ copy 1 c.scan_response_data_length c.scan_response_data
      ∷ [];
}

abbrev pub le_set_advertise_enable : ℕ → CmdParam
le_set_advertise_enable advertising_enable = record {
  opcode = Opcode.le_set_advertise_enable;
  len = 1;
  writes = put 0 (put_uint8 advertising_enable) ∷ [];
}
