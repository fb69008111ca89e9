-- ===== src/Hci/Command/Fields.antt =====
-- linux/cmd/cmd.go: the form of every command, set down from the Bluetooth specification's side: its
-- group, its number in the group, and its fields in order.
use gatt.Prelude.{ℕ, ◌+◌, ◌*◌, ◌-◌, ◌/◌, ◌%◌, List, [], ◌∷◌, ◌++◌, take}
use gatt.Hci.Bytes.{Address}
use gatt.Hci.Command.Any.{
  Command, disconnect, write_default_link_policy, set_event_mask, reset, flush, write_page_timeout,
  write_device_class, host_buffer_size, write_inquiry_scan_type, write_inquiry_mode,
  write_page_scan_type, write_simple_pairing_mode, set_event_mask_page2, write_le_host_supported,
  le_set_event_mask, le_read_buffer_size, le_read_local_supported_features, le_set_random_address,
  le_set_advertising_parameters, le_read_advertising_channel_tx_power, le_set_advertising_data,
  le_set_scan_response_data, le_set_advertise_enable, le_set_scan_parameters, le_set_scan_enable,
  le_create_conn, le_create_conn_cancel, le_read_allow_list_size, le_clear_allow_list,
  le_add_device_to_allow_list, le_remove_device_from_allow_list, le_conn_update,
  le_set_host_channel_classification, le_read_channel_map, le_read_remote_used_features, le_encrypt,
  le_rand, le_start_encryption, le_ltk_reply, le_ltk_neg_reply, le_read_supported_states,
  le_receiver_test, le_transmitter_test, le_test_end, le_remote_connection_parameter_reply,
  le_remote_connection_parameter_neg_reply,
}
use gatt.Hci.Command.Layout.{zeros}

-- A field: a number of 8, 16 or 64 bits, an address, or bytes as they are.
pub data Field : Type 0 where
  u8 u16 u64 : ℕ → Field
  mac_address : Address → Field
  raw : List ℕ → Field

-- The least significant byte comes first, and the last byte of an address.
abbrev pub field_bytes : Field → List ℕ
field_bytes (u8 v) = v ∷ []
field_bytes (u16 v) = v % 256 ∷ (v / 256 % 256) ∷ []
field_bytes (u64 v) =
    v % 256
    ∷ (v / 256 % 256)
    ∷ (v / 65536 % 256)
    ∷ (v / 16777216 % 256)
    ∷ (v / 4294967296 % 256)
    ∷ (v / 1099511627776 % 256)
    ∷ (v / 281474976710656 % 256)
    ∷ (v / 72057594037927936 % 256)
    ∷ []
field_bytes (mac_address m) = m.a5 ∷ m.a4 ∷ m.a3 ∷ m.a2 ∷ m.a1 ∷ m.a0 ∷ []
field_bytes (raw b) = b

abbrev pub field_list : List Field → List ℕ
field_list [] = []
field_list (f ∷ fs) = field_bytes f ++ field_list fs

-- The first `n` bytes of the 31 of a packet, and zeros.
abbrev pub padded : ℕ → List ℕ → List ℕ
padded n b = take n b ++ zeros (31 - n)

-- LEReadBufferSize is sent with a byte, and LEReadRemoteUsedFeatures with six, that are no field.
abbrev pub form : Command → ℕ × ℕ × List Field
form (disconnect c) = (1, 6, u16 c.connection_handle ∷ u8 c.reason ∷ [])
form (write_default_link_policy v) = (2, 15, u16 v ∷ [])
form (set_event_mask v) = (3, 1, u64 v ∷ [])
form reset = (3, 3, [])
form (flush v) = (3, 8, u16 v ∷ [])
form (write_page_timeout v) = (3, 24, u16 v ∷ [])
form (write_device_class b) = (3, 36, raw b ∷ [])
form (host_buffer_size c) = (
  3,
  51,
  u16 c.host_acl_data_packet_length
      ∷ u8 c.host_synchronous_data_packet_length
      ∷ u16 c.host_total_num_acl_data_packets
      ∷ u16 c.host_total_num_synchronous_data_packets
      ∷ [],
)
form (write_inquiry_scan_type v) = (3, 67, u8 v ∷ [])
form (write_inquiry_mode v) = (3, 69, u8 v ∷ [])
form (write_page_scan_type v) = (3, 71, u8 v ∷ [])
form (write_simple_pairing_mode v) = (3, 86, u8 v ∷ [])
form (set_event_mask_page2 v) = (3, 99, u64 v ∷ [])
form (write_le_host_supported c) = (3, 109, u8 c.le_supported_host ∷ u8 c.simultaneous_le_host ∷ [])
form (le_set_event_mask v) = (8, 1, u64 v ∷ [])
form le_read_buffer_size = (8, 2, raw (0 ∷ []) ∷ [])
form le_read_local_supported_features = (8, 3, [])
form (le_set_random_address a) = (8, 5, mac_address a ∷ [])
form (le_set_advertising_parameters c) = (
  8,
  6,
  u16 c.advertising_interval_min
      ∷ u16 c.advertising_interval_max
      ∷ u8 c.advertising_type
      ∷ u8 c.own_address_type
      ∷ u8 c.direct_address_type
      ∷ mac_address c.direct_address
      ∷ u8 c.advertising_channel_map
      ∷ u8 c.advertising_filter_policy
      ∷ [],
)
form le_read_advertising_channel_tx_power = (8, 7, [])
form (le_set_advertising_data c) = (
  8,
  8,
  u8 c.advertising_data_length ∷ raw (padded c.advertising_data_length c.advertising_data) ∷ [],
)
form (le_set_scan_response_data c) = (
  8,
  9,
  u8 c.scan_response_data_length
      ∷ raw (padded c.scan_response_data_length c.scan_response_data)
      ∷ [],
)
form (le_set_advertise_enable v) = (8, 10, u8 v ∷ [])
form (le_set_scan_parameters c) = (
  8,
  11,
  u8 c.le_scan_type
      ∷ u16 c.le_scan_interval
      ∷ u16 c.le_scan_window
      ∷ u8 c.own_address_type
      ∷ u8 c.scanning_filter_policy
      ∷ [],
)
form (le_set_scan_enable c) = (8, 12, u8 c.le_scan_enable ∷ u8 c.filter_duplicates ∷ [])
form (le_create_conn c) = (
  8,
  13,
  u16 c.le_scan_interval
      ∷ u16 c.le_scan_window
      ∷ u8 c.initiator_filter_policy
      ∷ u8 c.peer_address_type
      ∷ mac_address c.peer_address
      ∷ u8 c.own_address_type
      ∷ u16 c.conn_interval_min
      ∷ u16 c.conn_interval_max
      ∷ u16 c.conn_latency
      ∷ u16 c.supervision_timeout
      ∷ u16 c.minimum_ce_length
      ∷ u16 c.maximum_ce_length
      ∷ [],
)
form le_create_conn_cancel = (8, 14, [])
form le_read_allow_list_size = (8, 15, [])
form le_clear_allow_list = (8, 16, [])
form (le_add_device_to_allow_list c) = (8, 17, u8 c.address_type ∷ mac_address c.address ∷ [])
form (le_remove_device_from_allow_list c) = (8, 18, u8 c.address_type ∷ mac_address c.address ∷ [])
form (le_conn_update c) = (
  8,
  19,
  u16 c.connection_handle
      ∷ u16 c.conn_interval_min
      ∷ u16 c.conn_interval_max
      ∷ u16 c.conn_latency
      ∷ u16 c.supervision_timeout
      ∷ u16 c.minimum_ce_length
      ∷ u16 c.maximum_ce_length
      ∷ [],
)
form (le_set_host_channel_classification b) = (8, 20, raw b ∷ [])
form (le_read_channel_map v) = (8, 21, u16 v ∷ [])
form (le_read_remote_used_features v) = (8, 22, u16 v ∷ raw (0 ∷ 0 ∷ 0 ∷ 0 ∷ 0 ∷ 0 ∷ []) ∷ [])
form (le_encrypt c) = (8, 23, raw c.key ∷ raw c.plaintext_data ∷ [])
form le_rand = (8, 24, [])
form (le_start_encryption c) = (
  8,
  25,
  u16 c.connection_handle
      ∷ u64 c.random_number
      ∷ u16 c.encrypted_diversifier
      ∷ raw c.long_term_key
      ∷ [],
)
form (le_ltk_reply c) = (8, 26, u16 c.connection_handle ∷ raw c.long_term_key ∷ [])
form (le_ltk_neg_reply v) = (8, 27, u16 v ∷ [])
form le_read_supported_states = (8, 28, [])
form (le_receiver_test v) = (8, 29, u8 v ∷ [])
form (le_transmitter_test c) =
    (8, 30, u8 c.tx_channel ∷ u8 c.length_of_test_data ∷ u8 c.packet_payload ∷ [])
form le_test_end = (8, 31, [])
form (le_remote_connection_parameter_reply c) = (
  8,
  32,
  u16 c.connection_handle
      ∷ u16 c.interval_min
      ∷ u16 c.interval_max
      ∷ u16 c.latency
      ∷ u16 c.timeout
      ∷ u16 c.minimum_ce_length
      ∷ u16 c.maximum_ce_length
      ∷ [],
)
form (le_remote_connection_parameter_neg_reply c) =
    (8, 33, u16 c.connection_handle ∷ u8 c.reason ∷ [])

abbrev pub opcode_of : Command → ℕ
opcode_of c = (form c).0 * 1024 + (form c).1

abbrev pub bytes_of : Command → List ℕ
bytes_of c = field_list (form c).2
