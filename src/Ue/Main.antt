-- ===== src/Ue/Main.antt =====
-- clientLTE/main.c: the connection, the main loop, the battery thread and the end.
--
-- The two threads are a sequence of turns, each a whole round of one loop: a round of `main`, a
-- round of `battery_thread`, or the arrival of SIGINT. What the kernel decides in a round (the
-- message that `recv` delivers, the results of `write`, `fopen` and `time`) is the turn's data.
-- `none` is undefined behaviour: a block or an end of data while no file is open.
pub mod Shutdown
pub mod Soundness
pub mod Saving
pub mod Uplink
pub mod Pong
pub mod Report
pub mod Unheeded
pub mod Race
pub mod Connection
pub mod Connect
pub mod Program
pub mod Loops
use lte.Base.{
  ℕ, ◌+◌, ◌==◌, ℤ, pos, negsuc, eqb_ℤ, Bool, true, false, not, ◌&&◌, if◌then◌else◌, Option, none,
  some, List, [], ◌∷◌, ◌++◌,
}
use lte.Message.{
  SMessage, SStmsi, EMessageType, decode_type, type_code, zero_message, ping, data_start,
  data_block, data_end, measurement_control_request, enb_off,
}
use lte.Ue.Sender.{Sender, set_type}
use lte.Ue.Battery.{UeBattery, Device, initialize_battery_life, update_battery, decrease_after_ping}
use lte.Ue.Cells.{SCells, EventState, initial_events, initialize_cells, set_current_signal_event}
use lte.Ue.Access.{send_prach_preamble, receive_prach_response, init_connection}
use lte.Ue.Rrc.{send_rrc_connection_request, receive_rrc_setup}
use lte.Ue.Handle.{
  receive_ping, send_pong, send_ue_off_signal, receive_measurement_control_request,
  send_measurement_report, Download, download_data, check_for_shutdown,
}

-- The globals and the locals of `main`. `device` holds `message`, `battery` and what was written;
-- `saved` holds the contents of the files at their `fclose`, and `file_to_recv` is `none` before
-- the first `fopen` and after an `fclose`.
pub record Client : Type 0 where
  pub running : Bool
  pub device : Device
  pub received : SMessage
  pub cells : SCells
  pub events : EventState
  pub packets_received : ℕ
  pub bytes_received : ℕ
  pub file_to_recv : Option (List ℕ)
  pub saved : List (List ℕ)

-- What the kernel decides in a round of `main`: `incoming` is `none` where `recv` leaves the
-- buffer alone; `opened` is what the file named by the buffer holds when it is opened to append.
pub record Round : Type 0 where
  pub incoming : Option SMessage
  pub answered : Bool
  pub noted : Bool
  pub opened : Option (List ℕ)
  pub now : ℕ
  pub later : ℕ

-- `recv(socket_fd, message_pointer, sizeof(message), MSG_DONTWAIT)`
receive : Option SMessage → Client → Client
receive none c = c
receive (some m) c = record c {
  device = record c.device { sender = record c.device.sender { message = m } };
}

handle_ping : Round → Client → Client
handle_ping r c =
    let (s, status) = send_pong r.answered c.device.sender in
    let answered = record c.device { sender = s } in
    if eqb_ℤ (receive_ping c.device.sender.message) (pos 0)
    then (if eqb_ℤ status (negsuc 0)
        then record c { device = answered }
        else record c { device = decrease_after_ping r.noted answered })
    else c

handle_data : Option (List ℕ) → Client → Option Client
handle_data none c = none
handle_data (some file) c =
    let d =
      download_data c.device.sender.message
        (record { file = file; bytes_received = c.bytes_received }) in
    some (record c {
      file_to_recv = some d.file;
      bytes_received = d.bytes_received;
      packets_received = c.packets_received + 1;
    })

handle_data_end : Option (List ℕ) → Client → Option Client
handle_data_end none c = none
handle_data_end (some file) c =
    some (record c { packets_received = 0; file_to_recv = none; saved = c.saved ++ file ∷ [] })

handle_measurement : Round → Client → Client
handle_measurement r c =
    if receive_measurement_control_request c.received
    then record c {
      device = record c.device {
        sender = send_measurement_report r.answered c.cells.current_event c.device.sender;
      };
    }
    else c

-- The `switch` on the type of `message`; other types have no case.
dispatch : Option EMessageType → Round → Client → Option Client
dispatch (some ping) r c = some (handle_ping r c)
dispatch (some data_start) r c = some (record c { file_to_recv = r.opened })
dispatch (some data_block) r c = handle_data c.file_to_recv c
dispatch (some data_end) r c = handle_data_end c.file_to_recv c
dispatch (some measurement_control_request) r c = some (handle_measurement r c)
dispatch _ r c = some c

-- The end of a round: the signals, and `message.message_type = -1`.
settle : Round → Client → Client
settle r c =
    let (cells, events) = set_current_signal_event r.now r.later c.cells c.events in
    record c {
      cells = cells;
      events = events;
      device = record c.device { sender = set_type 0xffff_ffff c.device.sender };
    }

settle_result : Round → Option Client → Option Client
settle_result r none = none
settle_result r (some c) = some (settle r c)

-- The body of the main loop.
unfoldable pub main_round : Round → Client → Option Client
unfolding receive handle_ping handle_data handle_data_end handle_measurement dispatch settle
    settle_result
main_round r c =
    let got = receive r.incoming c in
    settle_result r (dispatch (decode_type got.device.sender.message.message_type) r got)

-- The condition of both loops.
unfoldable pub goes_on : Client → Bool
goes_on c = c.running && not (check_for_shutdown c.received)

pub data Turn : Type 0 where
  main_turn : Round → Turn
  battery_turn : Bool → ℕ → ℕ → Turn
  interrupt : Turn

-- A turn of a loop that has ended does nothing. `interrupt` is `signal_handler`.
unfoldable pub take_turn : Turn → Client → Option Client
take_turn (main_turn r) c = if goes_on c then main_round r c else some c
take_turn (battery_turn written now later) c =
    some
      (if goes_on c then record c { device = (update_battery written now later c.device).0 } else c)
take_turn interrupt c = some (record c { running = false })

run_result : (Client → Option Client) → Option Client → Option Client
run_result f none = none
run_result f (some c) = f c

unfoldable pub run : List Turn → Client → Option Client
unfolding run_result
run [] c = some c
run (t ∷ ts) c = run_result (run ts) (take_turn t c)

-- What follows the loops once both have ended.
unfoldable pub finish : Bool → Client → Sender
finish written c =
    if c.device.sender.message.message_type == type_code enb_off
    then c.device.sender
    else (send_ue_off_signal written c.device.sender).0
