-- ===== src/Hci/Event/Code.antt =====
-- linux/event/event.go and linux/consts/const.go: the codes of the events that are handled, of the
-- packets, and of the advertising reports.
use gatt.Prelude.{ℕ}

abbrev pub disconnection_complete : ℕ
disconnection_complete = 0x05

abbrev pub command_complete : ℕ
command_complete = 0x0E

abbrev pub command_status : ℕ
command_status = 0x0F

abbrev pub number_of_completed_pkts : ℕ
number_of_completed_pkts = 0x13

abbrev pub le_meta : ℕ
le_meta = 0x3E

abbrev pub le_connection_complete : ℕ
le_connection_complete = 0x01

abbrev pub le_advertising_report : ℕ
le_advertising_report = 0x02

abbrev pub le_connection_update_complete : ℕ
le_connection_update_complete = 0x03

abbrev pub le_ltk_request : ℕ
le_ltk_request = 0x05

abbrev pub packet_command : ℕ
packet_command = 0x01

abbrev pub packet_acl_data : ℕ
packet_acl_data = 0x02

abbrev pub packet_sco_data : ℕ
packet_sco_data = 0x03

abbrev pub packet_event : ℕ
packet_event = 0x04

abbrev pub packet_vendor : ℕ
packet_vendor = 0xFF

abbrev pub adv_ind : ℕ
adv_ind = 0x00

abbrev pub adv_direct_ind : ℕ
adv_direct_ind = 0x01

abbrev pub scan_resp : ℕ
scan_resp = 0x04
