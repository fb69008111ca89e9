-- ===== src/Hci/Command/Any.antt =====
-- The commands of linux/cmd/cmd.go together, as a type to reason about.
use gatt.Prelude.{ℕ, List, length, ◌≡◌, ◌≤◌}
use gatt.Hci.Bytes.{Address}
use gatt.Hci.Command.{CmdParam}
use gatt.Hci.Command.Host
use gatt.Hci.Command.LeAdvertising
use gatt.Hci.Command.LeConnection
use gatt.Hci.Command.LeControl

pub data Command : Type 0 where
  disconnect : Host.Disconnect → Command
  write_default_link_policy : ℕ → Command
  set_event_mask : ℕ → Command
  reset : Command
  flush : ℕ → Command
  write_page_timeout : ℕ → Command
  write_device_class : List ℕ → Command
  host_buffer_size : Host.HostBufferSize → Command
  write_inquiry_scan_type : ℕ → Command
  write_inquiry_mode : ℕ → Command
  write_page_scan_type : ℕ → Command
  write_simple_pairing_mode : ℕ → Command
  set_event_mask_page2 : ℕ → Command
  write_le_host_supported : Host.WriteLeHostSupported → Command
  le_set_event_mask : ℕ → Command
  le_read_buffer_size : Command
  le_read_local_supported_features : Command
  le_set_random_address : Address → Command
  le_set_advertising_parameters : LeAdvertising.LeSetAdvertisingParameters → Command
  le_read_advertising_channel_tx_power : Command
  le_set_advertising_data : LeAdvertising.LeSetAdvertisingData → Command
  le_set_scan_response_data : LeAdvertising.LeSetScanResponseData → Command
  le_set_advertise_enable : ℕ → Command
  le_set_scan_parameters : LeConnection.LeSetScanParameters → Command
  le_set_scan_enable : LeConnection.LeSetScanEnable → Command
  le_create_conn : LeConnection.LeCreateConn → Command
  le_create_conn_cancel : Command
  le_read_allow_list_size : Command
  le_clear_allow_list : Command
  le_add_device_to_allow_list : LeConnection.LeAddDeviceToAllowList → Command
  le_remove_device_from_allow_list : LeConnection.LeRemoveDeviceFromAllowList → Command
  le_conn_update : LeConnection.LeConnUpdate → Command
  le_set_host_channel_classification : List ℕ → Command
  le_read_channel_map : ℕ → Command
  le_read_remote_used_features : ℕ → Command
  le_encrypt : LeControl.LeEncrypt → Command
  le_rand : Command
  le_start_encryption : LeControl.LeStartEncryption → Command
  le_ltk_reply : LeControl.LeLtkReply → Command
  le_ltk_neg_reply : ℕ → Command
  le_read_supported_states : Command
  le_receiver_test : ℕ → Command
  le_transmitter_test : LeControl.LeTransmitterTest → Command
  le_test_end : Command
  le_remote_connection_parameter_reply : LeControl.LeRemoteConnectionParameterReply → Command
  le_remote_connection_parameter_neg_reply : LeControl.LeRemoteConnectionParameterNegReply → Command

unfoldable pub cmd_param : Command → CmdParam
cmd_param (disconnect c) = Host.disconnect c
cmd_param (write_default_link_policy default_link_policy_settings) =
    Host.write_default_link_policy default_link_policy_settings
cmd_param (set_event_mask event_mask) = Host.set_event_mask event_mask
cmd_param reset = Host.reset
cmd_param (flush connection_handle) = Host.flush connection_handle
cmd_param (write_page_timeout page_timeout) = Host.write_page_timeout page_timeout
cmd_param (write_device_class device_class) = Host.write_device_class device_class
cmd_param (host_buffer_size c) = Host.host_buffer_size c
cmd_param (write_inquiry_scan_type scan_type) = Host.write_inquiry_scan_type scan_type
cmd_param (write_inquiry_mode inquiry_mode) = Host.write_inquiry_mode inquiry_mode
cmd_param (write_page_scan_type page_scan_type) = Host.write_page_scan_type page_scan_type
cmd_param (write_simple_pairing_mode simple_pairing_mode) =
    Host.write_simple_pairing_mode simple_pairing_mode
cmd_param (set_event_mask_page2 event_mask_page2) = Host.set_event_mask_page2 event_mask_page2
cmd_param (write_le_host_supported c) = Host.write_le_host_supported c
cmd_param (le_set_event_mask le_event_mask) = LeAdvertising.le_set_event_mask le_event_mask
cmd_param le_read_buffer_size = LeAdvertising.le_read_buffer_size
cmd_param le_read_local_supported_features = LeAdvertising.le_read_local_supported_features
cmd_param (le_set_random_address random_address) =
    LeAdvertising.le_set_random_address random_address
cmd_param (le_set_advertising_parameters c) = LeAdvertising.le_set_advertising_parameters c
cmd_param le_read_advertising_channel_tx_power = LeAdvertising.le_read_advertising_channel_tx_power
cmd_param (le_set_advertising_data c) = LeAdvertising.le_set_advertising_data c
cmd_param (le_set_scan_response_data c) = LeAdvertising.le_set_scan_response_data c
cmd_param (le_set_advertise_enable advertising_enable) =
    LeAdvertising.le_set_advertise_enable advertising_enable
cmd_param (le_set_scan_parameters c) = LeConnection.le_set_scan_parameters c
cmd_param (le_set_scan_enable c) = LeConnection.le_set_scan_enable c
cmd_param (le_create_conn c) = LeConnection.le_create_conn c
cmd_param le_create_conn_cancel = LeConnection.le_create_conn_cancel
cmd_param le_read_allow_list_size = LeConnection.le_read_allow_list_size
cmd_param le_clear_allow_list = LeConnection.le_clear_allow_list
cmd_param (le_add_device_to_allow_list c) = LeConnection.le_add_device_to_allow_list c
cmd_param (le_remove_device_from_allow_list c) = LeConnection.le_remove_device_from_allow_list c
cmd_param (le_conn_update c) = LeConnection.le_conn_update c
cmd_param (le_set_host_channel_classification channel_map) =
    LeConnection.le_set_host_channel_classification channel_map
cmd_param (le_read_channel_map connection_handle) = LeControl.le_read_channel_map connection_handle
cmd_param (le_read_remote_used_features connection_handle) =
    LeControl.le_read_remote_used_features connection_handle
cmd_param (le_encrypt c) = LeControl.le_encrypt c
cmd_param le_rand = LeControl.le_rand
cmd_param (le_start_encryption c) = LeControl.le_start_encryption c
cmd_param (le_ltk_reply c) = LeControl.le_ltk_reply c
cmd_param (le_ltk_neg_reply connection_handle) = LeControl.le_ltk_neg_reply connection_handle
cmd_param le_read_supported_states = LeControl.le_read_supported_states
cmd_param (le_receiver_test rx_channel) = LeControl.le_receiver_test rx_channel
cmd_param (le_transmitter_test c) = LeControl.le_transmitter_test c
cmd_param le_test_end = LeControl.le_test_end
cmd_param (le_remote_connection_parameter_reply c) =
    LeControl.le_remote_connection_parameter_reply c
cmd_param (le_remote_connection_parameter_neg_reply c) =
    LeControl.le_remote_connection_parameter_neg_reply c

-- The arrays have their lengths, and a length byte stays within its array.
abbrev pub IsWellFormed : Command → Type 0
IsWellFormed (disconnect c) = Unit
IsWellFormed (write_default_link_policy default_link_policy_settings) = Unit
IsWellFormed (set_event_mask event_mask) = Unit
IsWellFormed reset = Unit
IsWellFormed (flush connection_handle) = Unit
IsWellFormed (write_page_timeout page_timeout) = Unit
IsWellFormed (write_device_class device_class) = (length device_class ≡ 3)
IsWellFormed (host_buffer_size c) = Unit
IsWellFormed (write_inquiry_scan_type scan_type) = Unit
IsWellFormed (write_inquiry_mode inquiry_mode) = Unit
IsWellFormed (write_page_scan_type page_scan_type) = Unit
IsWellFormed (write_simple_pairing_mode simple_pairing_mode) = Unit
IsWellFormed (set_event_mask_page2 event_mask_page2) = Unit
IsWellFormed (write_le_host_supported c) = Unit
IsWellFormed (le_set_event_mask le_event_mask) = Unit
IsWellFormed le_read_buffer_size = Unit
IsWellFormed le_read_local_supported_features = Unit
IsWellFormed (le_set_random_address random_address) = Unit
IsWellFormed (le_set_advertising_parameters c) = Unit
IsWellFormed le_read_advertising_channel_tx_power = Unit
IsWellFormed (le_set_advertising_data c) =
    (c.advertising_data_length ≤ 31) × (length c.advertising_data ≡ 31)
IsWellFormed (le_set_scan_response_data c) =
    (c.scan_response_data_length ≤ 31) × (length c.scan_response_data ≡ 31)
IsWellFormed (le_set_advertise_enable advertising_enable) = Unit
IsWellFormed (le_set_scan_parameters c) = Unit
IsWellFormed (le_set_scan_enable c) = Unit
IsWellFormed (le_create_conn c) = Unit
IsWellFormed le_create_conn_cancel = Unit
IsWellFormed le_read_allow_list_size = Unit
IsWellFormed le_clear_allow_list = Unit
IsWellFormed (le_add_device_to_allow_list c) = Unit
IsWellFormed (le_remove_device_from_allow_list c) = Unit
IsWellFormed (le_conn_update c) = Unit
IsWellFormed (le_set_host_channel_classification channel_map) = (length channel_map ≡ 5)
IsWellFormed (le_read_channel_map connection_handle) = Unit
IsWellFormed (le_read_remote_used_features connection_handle) = Unit
IsWellFormed (le_encrypt c) = (length c.key ≡ 16) × (length c.plaintext_data ≡ 16)
IsWellFormed le_rand = Unit
IsWellFormed (le_start_encryption c) = (length c.long_term_key ≡ 16)
IsWellFormed (le_ltk_reply c) = (length c.long_term_key ≡ 16)
IsWellFormed (le_ltk_neg_reply connection_handle) = Unit
IsWellFormed le_read_supported_states = Unit
IsWellFormed (le_receiver_test rx_channel) = Unit
IsWellFormed (le_transmitter_test c) = Unit
IsWellFormed le_test_end = Unit
IsWellFormed (le_remote_connection_parameter_reply c) = Unit
IsWellFormed (le_remote_connection_parameter_neg_reply c) = Unit
