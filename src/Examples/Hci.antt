-- ===== src/Examples/Hci.antt =====
-- A controller that accepts every command, and two connections.
use gatt.Prelude.{
  ◌==◌, if◌then◌else◌, ℕ, ◌<◌, ◌≡◌, ◌↔◌, refl, List, [], ◌∷◌, true, false, ltb, none, some, arith,
  ok, length,
}
use mathlib.Core.List.{Memᴰ}
use gatt.Hci.Bytes.{Address}
use gatt.Hci.L2cap.{write, write_loop, unmarshal, receive_acl, drain}
use gatt.Hci.L2cap.Termination.{incomplete, drain-ends}
use gatt.Hci.L2cap.Loopback.{Fits, acl_packets}
use gatt.Hci.Command.{CmdParam}
use gatt.Hci.Command.Any.{Command, cmd_param}
use gatt.Hci.Event.{
  header_code, disconnection_complete, command_complete, command_status, LeConnectionComplete,
  le_connection_complete, le_advertising_report,
}
use gatt.Hci.Event.Reports.{write_reports, le_advertising_report-write_reports}
use gatt.Hci.Event.Parameters.{events_refused}
use gatt.Hci.Sent.{
  check_resp, contains, CmdPkt, closed, completed, enqueue, take_sent, CmdEvent, process_cmd_events,
}
use gatt.Hci.Sent.Pending.{pending, queues}
use gatt.Hci.Sent.Turns.{process_cmd_events-answers, process_cmd_events-stuck}
use gatt.Hci.State.{
  Hci, new_hci, then_do, lookup, returned, send_and_check_resp, enable_advertising,
}
use gatt.Hci.State.Handlers.{accept, update_parameters, handle_l2cap}
use gatt.Hci.State.MainLoop.{
  connected, handle_connection, handle_le_meta, dispatch_code, dispatch, handle_packet, main_loop,
}
use gatt.Hci.State.Reset.{
  reset_sequence, reset_device, until_refused, all_succeed, reset_device-until_refused,
}
use gatt.Hci.State.Lockout.{announced, lockout}
use gatt.Hci.State.Demux.{channel_run, deliveries}
use gatt.Hci.State.Demux.Run.{main_loop-channel_run}
use gatt.Hci.State.Demux.Delivery.{Interleaved, nothing, ours, theirs, main_loop-write}

abbrev accepting : CmdParam → List ℕ
accepting c = 0 ∷ []

abbrev host : Hci
host = record (new_hci 2) {
  has_accept_master_handler = true;
  has_accept_slave_handler = true;
  has_advertisement_handler = true;
}

-- The packet of a central that connects under the handle 64, and one with three bytes from it.
abbrev connection : List ℕ
connection =
    4 ∷ 0x3e ∷ 19 ∷ 1 ∷ 0 ∷ 64 ∷ 0 ∷ 1 ∷ 0 ∷ 1 ∷ 2 ∷ 3 ∷ 4 ∷ 5 ∷ 6 ∷ 24 ∷ 0 ∷ 0 ∷ 0 ∷ 72 ∷ 0 ∷ 0
    ∷ []

abbrev from_64 : List ℕ
from_64 = 2 ∷ 64 ∷ 0 ∷ 7 ∷ 0 ∷ 3 ∷ 0 ∷ 4 ∷ 0 ∷ 1 ∷ 2 ∷ 3 ∷ []

abbrev from_65 : List ℕ
from_65 = 2 ∷ 65 ∷ 0 ∷ 7 ∷ 0 ∷ 3 ∷ 0 ∷ 4 ∷ 0 ∷ 7 ∷ 8 ∷ 9 ∷ []

connection_returned :
    (main_loop accepting host (connection ∷ from_65 ∷ from_64 ∷ [])).ended ≡ returned
unfolding main_loop handle_packet dispatch dispatch_code header_code handle_le_meta
    handle_connection le_connection_complete connected then_do enable_advertising update_parameters
    accept handle_l2cap unmarshal receive_acl drain send_and_check_resp check_resp contains
connection_returned = refl

main_loop-channel_run_example :
    (lookup (main_loop accepting host (connection ∷ from_65 ∷ from_64 ∷ [])).hci.conns 64
      ≡ (channel_run 64 none (connection ∷ from_65 ∷ from_64 ∷ [])).buf)
    × (deliveries 64 (main_loop accepting host (connection ∷ from_65 ∷ from_64 ∷ [])).effects
        ≡ (channel_run 64 none (connection ∷ from_65 ∷ from_64 ∷ [])).pdus)
main_loop-channel_run_example =
    main_loop-channel_run 64 accepting host (connection ∷ from_65 ∷ from_64 ∷ [])
      connection_returned

abbrev two_connected : Hci
two_connected = record host { conns = (64, 9 ∷ []) ∷ (65, []) ∷ [] }

payload_Fits : Fits 27 64 4 (1 ∷ 2 ∷ 3 ∷ [])
payload_Fits = record {
  sends = omega arith;
  size = omega arith;
  handle = omega arith;
  channel = omega arith;
  data_channel = λ e. absurd (omega arith);
  short = omega arith;
}

packets_Interleaved :
    Interleaved 64 (acl_packets (write 27 64 4 (1 ∷ 2 ∷ 3 ∷ []))) (from_65 ∷ from_64 ∷ [])
unfolding write write_loop unmarshal
packets_Interleaved = theirs from_65 refl (ours _ from_64 refl nothing)

packets_returned : (main_loop accepting two_connected (from_65 ∷ from_64 ∷ [])).ended ≡ returned
unfolding main_loop handle_packet handle_l2cap unmarshal receive_acl drain
packets_returned = refl

main_loop-write_example :
    deliveries 64 (main_loop accepting two_connected (from_65 ∷ from_64 ∷ [])).effects
    ≡ (1 ∷ 2 ∷ 3 ∷ []) ∷ []
main_loop-write_example =
    main_loop-write accepting two_connected 64 27 64 4 (1 ∷ 2 ∷ 3 ∷ []) (9 ∷ [])
      (from_65 ∷ from_64 ∷ []) payload_Fits refl packets_Interleaved packets_returned

abbrev nobody : Address
nobody = record { a0 = 6; a1 = 5; a2 = 4; a3 = 3; a4 = 2; a5 = 1 }

abbrev stranger : LeConnectionComplete
stranger = record {
  subevent_code = 1;
  status = 0;
  connection_handle = 64;
  role = 0;
  peer_address_type = 0;
  peer_address = nobody;
  conn_interval = 6;
  conn_latency = 0;
  supervision_timeout = 72;
  master_clock_accuracy = 0;
}

-- A report of one advertisement.
abbrev report : List ℕ
report = 4 ∷ 0x3e ∷ 12 ∷ 2 ∷ 1 ∷ 0 ∷ 0 ∷ 1 ∷ 2 ∷ 3 ∷ 4 ∷ 5 ∷ 6 ∷ 0 ∷ 200 ∷ []

lockout_example :
    announced (main_loop accepting (accept host stranger).hci (report ∷ [])).effects ≡ []
lockout_example = lockout accepting host stranger (report ∷ []) refl refl

abbrev waiting : List CmdPkt
waiting =
    record { op = 3075; done = 1 }
    ∷ record { op = 8202; done = 2 }
    ∷ record { op = 3075; done = 3 }
    ∷ []

queues_example :
    (pending 3075 (enqueue waiting (cmd_param Command.reset) 4) ≡ 1 ∷ 3 ∷ 4 ∷ [])
    × ((take_sent waiting 3075).done ≡ some 1)
    × (pending 3075 (take_sent waiting 3075).sent ≡ 3 ∷ [])
unfolding cmd_param
queues_example = queues waiting (cmd_param Command.reset) 4 3075 3075

-- A refusal of the first command, and completions of the other two.
abbrev replies : List CmdEvent
replies =
    record { op = 3075; answer = closed }
    ∷ record { op = 8202; answer = completed (1 ∷ []) }
    ∷ record { op = 3075; answer = completed (0 ∷ []) }
    ∷ []

process_cmd_events-answers_example :
    ((process_cmd_events (λ d. true) waiting replies).stuck ≡ false)
    × Memᴰ (3, completed (0 ∷ [])) (process_cmd_events (λ d. true) waiting replies).received
process_cmd_events-answers_example =
    process_cmd_events-answers (λ d. true) waiting replies 3075 1 3
      (record { op = 3075; answer = completed (0 ∷ []) }) (refl, (refl, (refl, tt))) refl refl

process_cmd_events-stuck_example : (process_cmd_events (λ d. ltb d 2) waiting replies).stuck ≡ true
process_cmd_events-stuck_example =
    process_cmd_events-stuck (λ d. ltb d 2) waiting replies 8202 0 2
      (record { op = 8202; answer = completed (1 ∷ []) }) (1 ∷ []) refl refl refl refl

le_advertising_report-write_reports_example :
    le_advertising_report
      (2 ∷ 1 ∷ write_reports (0 ∷ []) (1 ∷ []) (nobody ∷ []) ((2 ∷ 1 ∷ 6 ∷ []) ∷ []) (200 ∷ []))
    ≡ ok (
        some (record {
          event_type = 0 ∷ [];
          address_type = 1 ∷ [];
          address = nobody ∷ [];
          lengths = 3 ∷ [];
          content = (2 ∷ 1 ∷ 6 ∷ []) ∷ [];
          rssi = 200 ∷ [];
        }))
le_advertising_report-write_reports_example =
    le_advertising_report-write_reports 2 1 (0 ∷ []) (1 ∷ []) (nobody ∷ []) ((2 ∷ 1 ∷ 6 ∷ []) ∷ [])
      (200 ∷ []) refl refl refl refl refl

abbrev too_short : List ℕ
too_short = 0 ∷ 64 ∷ []

events_refused_example :
    ((disconnection_complete too_short ≡ none) ↔ (length too_short < 4))
    × ((command_complete too_short ≡ none) ↔ (length too_short < 3))
    × ((command_status too_short ≡ none) ↔ (length too_short < 4))
events_refused_example = events_refused too_short

-- A controller that refuses the second command.
abbrev refusing : CmdParam → List ℕ
refusing c = if c.opcode == 0x0C01 then 1 ∷ [] else 0 ∷ []

reset_device-until_refused_example :
    ((reset_device refusing host).effects ≡ until_refused refusing reset_sequence)
    × (((reset_device refusing host).ended ≡ returned)
        ↔ (all_succeed refusing reset_sequence ≡ true))
reset_device-until_refused_example = reset_device-until_refused refusing host

-- Two PDUs, and the beginning of a third.
abbrev two_and_more : List ℕ
two_and_more = 1 ∷ 0 ∷ 4 ∷ 0 ∷ 7 ∷ 1 ∷ 0 ∷ 4 ∷ 0 ∷ 8 ∷ 2 ∷ 0 ∷ 4 ∷ 0 ∷ 9 ∷ []

drain-ends_example :
    (drain 20 two_and_more ≡ drain 15 two_and_more)
    × (incomplete (drain 20 two_and_more).buf ≡ true)
drain-ends_example = drain-ends 20 two_and_more (omega arith)
