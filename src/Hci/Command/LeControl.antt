-- ===== src/Hci/Command/LeControl.antt =====
-- linux/cmd/cmd.go: the commands for channels, encryption and tests.
use gatt.Prelude.{ℕ, List, [], ◌∷◌, put_uint16, length}
use gatt.Hci.Bytes.{put_uint8, put_uint64}
use gatt.Hci.Command.{CmdParam, put, copy}
use gatt.Hci.Command.Opcode

abbrev pub le_read_channel_map : ℕ → CmdParam
le_read_channel_map connection_handle = record {
  opcode = Opcode.le_read_channel_map;
  len = 2;
  writes = put 0 (put_uint16 connection_handle) ∷ [];
}

abbrev pub le_read_remote_used_features : ℕ → CmdParam
le_read_remote_used_features connection_handle = record {
  opcode = Opcode.le_read_remote_used_features;
  len = 8;
  writes = put 0 (put_uint16 connection_handle) ∷ [];
}

pub record LeEncrypt : Type 0 where
  pub key : List ℕ
  pub plaintext_data : List ℕ

abbrev pub le_encrypt : LeEncrypt → CmdParam
le_encrypt c = record {
  opcode = Opcode.le_encrypt;
  len = 32;
  writes = copy 0 (length c.key) c.key ∷ copy 16 (length c.plaintext_data) c.plaintext_data ∷ [];
}

abbrev pub le_rand : CmdParam
le_rand = record { opcode = Opcode.le_rand; len = 0; writes = [] }

pub record LeStartEncryption : Type 0 where
  pub connection_handle : ℕ
  pub random_number : ℕ
  pub encrypted_diversifier : ℕ
  pub long_term_key : List ℕ

abbrev pub le_start_encryption : LeStartEncryption → CmdParam
le_start_encryption c = record {
  opcode = Opcode.le_start_encryption;
  len = 28;
  writes =
      put 0 (put_uint16 c.connection_handle)
      ∷ put 2 (put_uint64 c.random_number)
      ∷ put 10 (put_uint16 c.encrypted_diversifier)
      ∷ copy 12 (length c.long_term_key) c.long_term_key
      ∷ [];
}

pub record LeLtkReply : Type 0 where
  pub connection_handle : ℕ
  pub long_term_key : List ℕ

abbrev pub le_ltk_reply : LeLtkReply → CmdParam
le_ltk_reply c = record {
  opcode = Opcode.le_ltk_reply;
  len = 18;
  writes =
      put 0 (put_uint16 c.connection_handle) ∷ copy 2 (length c.long_term_key) c.long_term_key ∷ [];
}

abbrev pub le_ltk_neg_reply : ℕ → CmdParam
le_ltk_neg_reply connection_handle = record {
  opcode = Opcode.le_ltk_neg_reply;
  len = 2;
  writes = put 0 (put_uint16 connection_handle) ∷ [];
}

abbrev pub le_read_supported_states : CmdParam
le_read_supported_states = record { opcode = Opcode.le_read_supported_states; len = 0; writes = [] }

abbrev pub le_receiver_test : ℕ → CmdParam
le_receiver_test rx_channel = record {
  opcode = Opcode.le_receiver_test;
  len = 1;
  writes = put 0 (put_uint8 rx_channel) ∷ [];
}

pub record LeTransmitterTest : Type 0 where
  pub tx_channel : ℕ
  pub length_of_test_data : ℕ
  pub packet_payload : ℕ

abbrev pub le_transmitter_test : LeTransmitterTest → CmdParam
le_transmitter_test c = record {
  opcode = Opcode.le_transmitter_test;
  len = 3;
  writes =
      put 0 (put_uint8 c.tx_channel)
      ∷ put 1 (put_uint8 c.length_of_test_data)
      ∷ put 2 (put_uint8 c.packet_payload)
      ∷ [];
}

abbrev pub le_test_end : CmdParam
le_test_end = record { opcode = Opcode.le_test_end; len = 0; writes = [] }

pub record LeRemoteConnectionParameterReply : Type 0 where
  pub connection_handle : ℕ
  pub interval_min : ℕ
  pub interval_max : ℕ
  pub latency : ℕ
  pub timeout : ℕ
  pub minimum_ce_length : ℕ
  pub maximum_ce_length : ℕ

abbrev pub le_remote_connection_parameter_reply : LeRemoteConnectionParameterReply → CmdParam
le_remote_connection_parameter_reply c = record {
  opcode = Opcode.le_remote_connection_parameter_reply;
  len = 14;
  writes =
      put 0 (put_uint16 c.connection_handle)
      ∷ put 2 (put_uint16 c.interval_min)
      ∷ put 4 (put_uint16 c.interval_max)
      ∷ put 6 (put_uint16 c.latency)
      ∷ put 8 (put_uint16 c.timeout)
      ∷ put 10 (put_uint16 c.minimum_ce_length)
      ∷ put 12 (put_uint16 c.maximum_ce_length)
      ∷ [];
}

pub record LeRemoteConnectionParameterNegReply : Type 0 where
  pub connection_handle : ℕ
  pub reason : ℕ

abbrev pub le_remote_connection_parameter_neg_reply : LeRemoteConnectionParameterNegReply → CmdParam
le_remote_connection_parameter_neg_reply c = record {
  opcode = Opcode.le_remote_connection_parameter_neg_reply;
  len = 3;
  writes = put 0 (put_uint16 c.connection_handle) ∷ put 2 (put_uint8 c.reason) ∷ [];
}
