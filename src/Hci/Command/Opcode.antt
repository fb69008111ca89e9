-- ===== src/Hci/Command/Opcode.antt =====
-- linux/cmd/cmd.go: the opcodes of the commands that are modelled; the group stands in the high six bits.
use gatt.Prelude.{ℕ, ◌+◌, ◌*◌}

abbrev pub disconnect : ℕ
disconnect = 1 * 1024 + 0x0006

abbrev pub write_default_link_policy : ℕ
write_default_link_policy = 2 * 1024 + 0x000F

abbrev pub set_event_mask : ℕ
set_event_mask = 3 * 1024 + 0x0001

abbrev pub reset : ℕ
reset = 3 * 1024 + 0x0003

abbrev pub flush : ℕ
flush = 3 * 1024 + 0x0008

abbrev pub write_page_timeout : ℕ
write_page_timeout = 3 * 1024 + 0x0018

abbrev pub write_class_of_device : ℕ
write_class_of_device = 3 * 1024 + 0x0024

abbrev pub host_buffer_size : ℕ
host_buffer_size = 3 * 1024 + 0x0033

abbrev pub write_inquiry_scan_type : ℕ
write_inquiry_scan_type = 3 * 1024 + 0x0043

abbrev pub write_inquiry_mode : ℕ
write_inquiry_mode = 3 * 1024 + 0x0045

abbrev pub write_page_scan_type : ℕ
write_page_scan_type = 3 * 1024 + 0x0047

abbrev pub write_simple_pairing_mode : ℕ
write_simple_pairing_mode = 3 * 1024 + 0x0056

abbrev pub set_event_mask_page2 : ℕ
set_event_mask_page2 = 3 * 1024 + 0x0063

abbrev pub write_le_host_supported : ℕ
write_le_host_supported = 3 * 1024 + 0x006D

abbrev pub le_set_event_mask : ℕ
le_set_event_mask = 8 * 1024 + 0x0001

abbrev pub le_read_buffer_size : ℕ
le_read_buffer_size = 8 * 1024 + 0x0002

abbrev pub le_read_local_supported_features : ℕ
le_read_local_supported_features = 8 * 1024 + 0x0003

abbrev pub le_set_random_address : ℕ
le_set_random_address = 8 * 1024 + 0x0005

abbrev pub le_set_advertising_parameters : ℕ
le_set_advertising_parameters = 8 * 1024 + 0x0006

abbrev pub le_read_advertising_channel_tx_power : ℕ
le_read_advertising_channel_tx_power = 8 * 1024 + 0x0007

abbrev pub le_set_advertising_data : ℕ
le_set_advertising_data = 8 * 1024 + 0x0008

abbrev pub le_set_scan_response_data : ℕ
le_set_scan_response_data = 8 * 1024 + 0x0009

abbrev pub le_set_advertise_enable : ℕ
le_set_advertise_enable = 8 * 1024 + 0x000a

abbrev pub le_set_scan_parameters : ℕ
le_set_scan_parameters = 8 * 1024 + 0x000b

abbrev pub le_set_scan_enable : ℕ
le_set_scan_enable = 8 * 1024 + 0x000c

abbrev pub le_create_conn : ℕ
le_create_conn = 8 * 1024 + 0x000d

abbrev pub le_create_conn_cancel : ℕ
le_create_conn_cancel = 8 * 1024 + 0x000e

abbrev pub le_read_allow_list_size : ℕ
le_read_allow_list_size = 8 * 1024 + 0x000f

abbrev pub le_clear_allow_list : ℕ
le_clear_allow_list = 8 * 1024 + 0x0010

abbrev pub le_add_device_to_allow_list : ℕ
le_add_device_to_allow_list = 8 * 1024 + 0x0011

abbrev pub le_remove_device_from_allow_list : ℕ
le_remove_device_from_allow_list = 8 * 1024 + 0x0012

abbrev pub le_conn_update : ℕ
le_conn_update = 8 * 1024 + 0x0013

abbrev pub le_set_host_channel_classification : ℕ
le_set_host_channel_classification = 8 * 1024 + 0x0014

abbrev pub le_read_channel_map : ℕ
le_read_channel_map = 8 * 1024 + 0x0015

abbrev pub le_read_remote_used_features : ℕ
le_read_remote_used_features = 8 * 1024 + 0x0016

abbrev pub le_encrypt : ℕ
le_encrypt = 8 * 1024 + 0x0017

abbrev pub le_rand : ℕ
le_rand = 8 * 1024 + 0x0018

abbrev pub le_start_encryption : ℕ
le_start_encryption = 8 * 1024 + 0x0019

abbrev pub le_ltk_reply : ℕ
le_ltk_reply = 8 * 1024 + 0x001a

abbrev pub le_ltk_neg_reply : ℕ
le_ltk_neg_reply = 8 * 1024 + 0x001b

abbrev pub le_read_supported_states : ℕ
le_read_supported_states = 8 * 1024 + 0x001c

abbrev pub le_receiver_test : ℕ
le_receiver_test = 8 * 1024 + 0x001d

abbrev pub le_transmitter_test : ℕ
le_transmitter_test = 8 * 1024 + 0x001e

abbrev pub le_test_end : ℕ
le_test_end = 8 * 1024 + 0x001f

abbrev pub le_remote_connection_parameter_reply : ℕ
le_remote_connection_parameter_reply = 8 * 1024 + 0x0020

abbrev pub le_remote_connection_parameter_neg_reply : ℕ
le_remote_connection_parameter_neg_reply = 8 * 1024 + 0x0021
