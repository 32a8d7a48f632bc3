-- ===== src/Ue/Main/Connection.antt =====
-- clientLTE/main.c: from the sockets to the loop. What the kernel decides on the way is the data
-- of a start.
pub mod Established
use lte.Base.{
  ℕ, ◌+◌, ◌==◌, ℤ, pos, negsuc, eqb_ℤ, Bool, true, false, not, ◌&&◌, if◌then◌else◌, Option, none,
  some, List, [], ◌∷◌, ◌++◌,
}
use lte.Message.{
  SMessage, SStmsi, EMessageType, decode_type, type_code, zero_message, ping, data_start,
  data_block, data_end, measurement_control_request, enb_off,
}
use lte.Ue.Sender.{Sender, set_type}
use lte.Ue.Battery.{UeBattery, Device, initialize_battery_life, update_battery, decrease_after_ping}
use lte.Ue.Cells.{SCells, EventState, initial_events, initialize_cells, set_current_signal_event}
use lte.Ue.Access.{send_prach_preamble, receive_prach_response, init_connection}
use lte.Ue.Rrc.{send_rrc_connection_request, receive_rrc_setup}
use lte.Ue.Handle.{
  receive_ping, send_pong, send_ue_off_signal, receive_measurement_control_request,
  send_measurement_report, Download, download_data, check_for_shutdown,
}
use lte.Ue.Main.{Client}

-- What the kernel decides while `main` connects.
pub record Start : Type 0 where
  pub socket_ok : Bool
  pub connect_ok : Bool
  pub start_time : ℕ
  pub rand0 : ℕ
  pub rand1 : ℕ
  pub ra_rnti : ℕ
  pub preamble_written : Bool
  pub response : Option SMessage
  pub identity : SStmsi
  pub request_written : Bool
  pub setup : Option SMessage
  pub complete_written : Bool

-- Where `main` returns before its loop.
pub data Connection : Type 0 where
  not_connected preamble_failed response_lost response_refused request_failed : Connection
  established : Client → Connection

pub record Handshake : Type 0 where
  pub sender : Sender
  pub received : SMessage

-- The calls from `send_rrc_connection_request` on; the result of `receive_rrc_setup` is dropped.
-- `receive_rrc_setup` works on the buffer `received` and the same socket.
unfoldable pub request_setup : Start → Handshake → Connection
request_setup k h =
    let (s, status) = send_rrc_connection_request k.request_written k.identity h.sender in
    let (r, _) =
      receive_rrc_setup k.complete_written k.setup
        (record { message = h.received; wire = s.wire }) in
    if eqb_ℤ status (negsuc 0)
    then request_failed
    else established (record {
      running = true;
      device = record {
        sender = record { message = s.message; wire = r.wire };
        battery = initialize_battery_life k.start_time;
      };
      received = r.message;
      cells = initialize_cells k.rand0 k.rand1 k.start_time;
      events = initial_events;
      packets_received = 0;
      bytes_received = 0;
      file_to_recv = none;
      saved = [];
    })

unfoldable pub receive_response : Start → Sender → Connection
receive_response k s =
    let (received, message, status) = receive_prach_response k.response zero_message s.message in
    if eqb_ℤ status (negsuc 0)
    then response_lost
    else if eqb_ℤ status (pos 1)
    then response_refused
    else request_setup k (record { sender = record s { message = message }; received = received })

-- `main` up to its loop: the globals start as zeros.
unfoldable pub connect_client : Start → Connection
unfolding request_setup receive_response
connect_client k =
    let (s, status) =
      send_prach_preamble k.preamble_written k.ra_rnti
        (record { message = zero_message; wire = [] }) in
    if eqb_ℤ (init_connection k.socket_ok k.connect_ok).status (pos 0)
    then not_connected
    else if eqb_ℤ status (negsuc 0)
    then preamble_failed
    else receive_response k s
