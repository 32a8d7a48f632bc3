-- ===== src/Tests/Client.antt =====
-- Tests of the client's main loop.
use lte.Base.{ℕ, ◌≡◌, refl, arith, true, false, none, some, List, [], ◌∷◌}
use lte.Message.{zero_message}
use lte.Ue.Battery.{initialize_battery_life}
use lte.Ue.Cells.{
  set_current_signal_event, update_rsrps, initial_events, initialize_cells, below, check_events,
}
use lte.Ue.Access.{send_prach_preamble, receive_prach_response, init_connection, expected_rapid}
use lte.Ue.Rrc.{send_rrc_connection_request, receive_rrc_setup, send_rrc_setup_complete}
use lte.Ue.Handle.{check_for_shutdown}
use lte.Ue.Sender.{Sender}
use lte.Ue.Main.{Turn, battery_turn, Client, Round, main_turn, main_round, goes_on, take_turn, run}
use lte.Ue.Main.Connection.{Start, established, connect_client}
use lte.Tests.Device.{idle_sender, device_at, cells_at}
use lte.Ue.Main.Saving.{save, events, disk_of, disk_result, run-refines_save}
use lte.Ue.Main.Race.{split_round, notice_loses_message}
use lte.Ue.Main.Shutdown.{run-goes_on}
use lte.Ue.Main.Soundness.{IsSound, run-IsSound}

-- A client in its loop, with a full battery.
abbrev pub in_loop : Client
in_loop = record {
  running = true;
  device = device_at 100 false;
  received = record zero_message { message_type = 4 };
  cells = cells_at 50 40;
  events = initial_events;
  packets_received = 0;
  bytes_received = 0;
  file_to_recv = none;
  saved = [];
}

abbrev enb_off_round : Round
enb_off_round = record {
  incoming = some (record zero_message { message_type = 10 });
  answered = true;
  noted = true;
  opened = none;
  now = 0;
  later = 0;
}

-- The same client after that round.
abbrev after_enb_off : Client
after_enb_off = record in_loop {
  device = record in_loop.device {
    sender = record { message = record zero_message { message_type = 0xffff_ffff }; wire = [] };
  };
}

enb_off_ignored : run (main_turn enb_off_round ∷ []) in_loop ≡ some after_enb_off
unfolding run take_turn goes_on check_for_shutdown main_round set_current_signal_event update_rsrps
    check_events below
enb_off_ignored = refl

run-goes_on_example : goes_on after_enb_off ≡ true
run-goes_on_example =
    run-goes_on (main_turn enb_off_round ∷ []) in_loop (λ x. x, tt)
      (unfold goes_on check_for_shutdown in refl) enb_off_ignored

-- A start on which everything succeeds.
abbrev pub good_start : Start
good_start = record {
  socket_ok = true;
  connect_ok = true;
  start_time = 0;
  rand0 = 50;
  rand1 = 40;
  ra_rnti = 7;
  preamble_written = true;
  response = some (record zero_message { message_type = 1 });
  identity = record { mme_code = 1; mtmsi = 2 };
  request_written = true;
  setup = some (record zero_message { message_type = 3 });
  complete_written = true;
}

-- The sender after the RRC request.
abbrev pub requested : Sender
requested =
    (send_rrc_connection_request true good_start.identity (record {
      message =
          (receive_prach_response good_start.response zero_message
            (send_prach_preamble true 7 idle_sender).0.message).1;
      wire = (send_prach_preamble true 7 idle_sender).0.wire;
    })).0

-- The client that `main` reaches its loop with.
abbrev pub connected : Client
connected =
    let answer =
      (receive_rrc_setup true good_start.setup (record requested { message = zero_message })).0 in
    record in_loop {
      device = record {
        sender = record { message = requested.message; wire = answer.wire };
        battery = initialize_battery_life 0;
      };
      received = answer.message;
      cells = initialize_cells 50 40 0;
    }

pub connects : connect_client good_start ≡ established connected
unfolding connect_client init_connection send_prach_preamble receive_prach_response expected_rapid
    send_rrc_connection_request receive_rrc_setup send_rrc_setup_complete
connects = refl

run-IsSound_example : IsSound connected
run-IsSound_example = run-IsSound good_start [] connected connects (unfold run in refl)

-- A data block and, before it, the file that it goes to.
abbrev pub file_round : ℕ → Round
file_round t = record enb_off_round {
  incoming = some (record { message_type = t; message_value = 1 ∷ 2 ∷ [] });
  opened = some [];
}

abbrev pub file_turns : List Turn
file_turns = main_turn (file_round 13) ∷ battery_turn true 5 5 ∷ main_turn (file_round 14) ∷ []

run-refines_save_example :
    disk_result (run file_turns in_loop) ≡ save (events file_turns) (disk_of in_loop)
run-refines_save_example =
    run-refines_save file_turns in_loop (λ x. x, (λ x. x, (λ x. x, tt)))
      (unfold goes_on check_for_shutdown in refl) (omega arith)

-- The client with 15 percent left.
abbrev nearly_low : Client
nearly_low = record in_loop { device = device_at 15 false }

notice_loses_message_example :
    (c' : Client) × (split_round (file_round 14) true 0 0 nearly_low ≡ some c')
    × (disk_of c' ≡ disk_of nearly_low)
    × (c'.device.sender.wire ≡ (record { message_type = 5; message_value = 1 ∷ 2 ∷ [] }) ∷ [])
notice_loses_message_example =
    notice_loses_message (file_round 14) (record { message_type = 14; message_value = 1 ∷ 2 ∷ [] })
      0 0 15 nearly_low refl refl (omega arith) (omega arith) refl refl
