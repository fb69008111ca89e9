-- ===== src/Hci/Command/Host.antt =====
-- linux/cmd/cmd.go: the commands that control the link and the host's part of the controller.
use gatt.Prelude.{ℕ, List, [], ◌∷◌, put_uint16, length}
use gatt.Hci.Bytes.{put_uint8, put_uint64}
use gatt.Hci.Command.{CmdParam, put, copy}
use gatt.Hci.Command.Opcode

pub record Disconnect : Type 0 where
  pub connection_handle : ℕ
  pub reason : ℕ

abbrev pub disconnect : Disconnect → CmdParam
disconnect c = record {
  opcode = Opcode.disconnect;
  len = 3;
  writes = put 0 (put_uint16 c.connection_handle) ∷ put 2 (put_uint8 c.reason) ∷ [];
}

abbrev pub write_default_link_policy : ℕ → CmdParam
write_default_link_policy default_link_policy_settings = record {
  opcode = Opcode.write_default_link_policy;
  len = 2;
  writes = put 0 (put_uint16 default_link_policy_settings) ∷ [];
}

abbrev pub set_event_mask : ℕ → CmdParam
set_event_mask event_mask = record {
  opcode = Opcode.set_event_mask;
  len = 8;
  writes = put 0 (put_uint64 event_mask) ∷ [];
}

abbrev pub reset : CmdParam
reset = record { opcode = Opcode.reset; len = 0; writes = [] }

abbrev pub flush : ℕ → CmdParam
flush connection_handle = record {
  opcode = Opcode.flush;
  len = 2;
  writes = put 0 (put_uint16 connection_handle) ∷ [];
}

abbrev pub write_page_timeout : ℕ → CmdParam
write_page_timeout page_timeout = record {
  opcode = Opcode.write_page_timeout;
  len = 2;
  writes = put 0 (put_uint16 page_timeout) ∷ [];
}

abbrev pub write_device_class : List ℕ → CmdParam
write_device_class device_class = record {
  opcode = Opcode.write_class_of_device;
  len = 3;
  writes = copy 0 (length device_class) device_class ∷ [];
}

pub record HostBufferSize : Type 0 where
  pub host_acl_data_packet_length : ℕ
  pub host_synchronous_data_packet_length : ℕ
  pub host_total_num_acl_data_packets : ℕ
  pub host_total_num_synchronous_data_packets : ℕ

abbrev pub host_buffer_size : HostBufferSize → CmdParam
host_buffer_size c = record {
  opcode = Opcode.host_buffer_size;
  len = 7;
  writes =
      put 0 (put_uint16 c.host_acl_data_packet_length)
      ∷ put 2 (put_uint8 c.host_synchronous_data_packet_length)
      ∷ put 3 (put_uint16 c.host_total_num_acl_data_packets)
      ∷ put 5 (put_uint16 c.host_total_num_synchronous_data_packets)
      ∷ [];
}

abbrev pub write_inquiry_scan_type : ℕ → CmdParam
write_inquiry_scan_type scan_type = record {
  opcode = Opcode.write_inquiry_scan_type;
  len = 1;
  writes = put 0 (put_uint8 scan_type) ∷ [];
}

abbrev pub write_inquiry_mode : ℕ → CmdParam
write_inquiry_mode inquiry_mode = record {
  opcode = Opcode.write_inquiry_mode;
  len = 1;
  writes = put 0 (put_uint8 inquiry_mode) ∷ [];
}

abbrev pub write_page_scan_type : ℕ → CmdParam
write_page_scan_type page_scan_type = record {
  opcode = Opcode.write_page_scan_type;
  len = 1;
  writes = put 0 (put_uint8 page_scan_type) ∷ [];
}

abbrev pub write_simple_pairing_mode : ℕ → CmdParam
write_simple_pairing_mode simple_pairing_mode = record {
  opcode = Opcode.write_simple_pairing_mode;
  len = 1;
  writes = put 0 (put_uint8 simple_pairing_mode) ∷ [];
}

abbrev pub set_event_mask_page2 : ℕ → CmdParam
set_event_mask_page2 event_mask_page2 = record {
  opcode = Opcode.set_event_mask_page2;
  len = 8;
  writes = put 0 (put_uint64 event_mask_page2) ∷ [];
}

pub record WriteLeHostSupported : Type 0 where
  pub le_supported_host : ℕ
  pub simultaneous_le_host : ℕ

abbrev pub write_le_host_supported : WriteLeHostSupported → CmdParam
write_le_host_supported c = record {
  opcode = Opcode.write_le_host_supported;
  len = 2;
  writes = put 0 (put_uint8 c.le_supported_host) ∷ put 1 (put_uint8 c.simultaneous_le_host) ∷ [];
}
