-- ===== src/Tests/Loops.antt =====
-- Tests of the client's two loops as threads.
use lte.Base.{pos, ◌≡◌, refl, true, false, some, List, [], ◌∷◌, ◌++◌}
use lte.Message.{SMessage, zero_message}
use lte.Ue.Access.{init_connection, send_prach_preamble, receive_prach_response, expected_rapid}
use lte.Ue.Rrc.{send_rrc_connection_request, receive_rrc_setup, send_rrc_setup_complete}
use lte.Ue.Battery.{update_battery, check_battery_status, drain, turn}
use lte.Tests.Device.{device_at}
use lte.Ue.Handle.{check_for_shutdown, send_ue_off_signal}
use lte.Ue.Main.{Client, Turn, main_turn, battery_turn, interrupt, take_turn, goes_on, run, finish}
use lte.Ue.Main.Connection.{Start, established, connect_client}
use lte.Ue.Main.Loops.{start_loops, run_loops}
use lte.Ue.Main.Loops.Interrupt.{run_loops-interrupt}
use lte.Ue.Main.Loops.Closing.{enb_off_closes_twice}
use lte.Tests.Client.{good_start, requested, connected, in_loop, file_round}

-- The eNodeB goes off between the RRC request and its answer.
abbrev shutdown : SMessage
shutdown = record zero_message { message_type = 10 }

abbrev shut_start : Start
shut_start = record good_start { setup = some shutdown }

abbrev shut_client : Client
shut_client = record connected {
  received = shutdown;
  device = record connected.device { sender = requested };
}

shut_connects : connect_client shut_start ≡ established shut_client
unfolding connect_client init_connection send_prach_preamble receive_prach_response expected_rapid
    send_rrc_connection_request receive_rrc_setup send_rrc_setup_complete
shut_connects = refl

abbrev both_turns : List Turn
both_turns = battery_turn true 5 5 ∷ main_turn (file_round 13) ∷ []

enb_off_closes_twice_example :
    (run_loops both_turns (start_loops shut_client)
      ≡ some (record { client = shut_client; closes = 2; main_done = true; battery_done = true }))
    × (finish false shut_client ≡ (send_ue_off_signal false shut_client.device.sender).0)
enb_off_closes_twice_example =
    enb_off_closes_twice shut_start shut_client shutdown both_turns false shut_connects refl refl
      (λ x. x, (λ x. x, tt)) refl refl

-- A client at 50 percent, before and after a turn of its battery thread.
abbrev half_full : Client
half_full = record in_loop { device = device_at 50 false }

abbrev drained : Client
drained = record in_loop {
  device = record half_full.device {
    battery = record half_full.device.battery { power_percentage = pos 38; starting_time = 5 };
  };
}

run_loops-interrupt_example :
    (run_loops (battery_turn true 5 5 ∷ []) (start_loops half_full)
      ≡ some (record { client = drained; closes = 0; main_done = false; battery_done = false }))
    × (run_loops ((battery_turn true 5 5 ∷ []) ++ interrupt ∷ both_turns) (start_loops half_full)
        ≡ some (record {
          client = record drained { running = false };
          closes = 0;
          main_done = true;
          battery_done = true;
        }))
run_loops-interrupt_example =
    run_loops-interrupt half_full drained (battery_turn true 5 5 ∷ []) both_turns (λ x. x, tt)
      (unfold goes_on check_for_shutdown in refl)
      (unfold run take_turn goes_on check_for_shutdown update_battery check_battery_status drain
          turn in
        refl)
      refl refl
