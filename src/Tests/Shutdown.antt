-- ===== src/Tests/Shutdown.antt =====
-- Tests of the end of the eNodeB by SIGINT.
use lte.Base.{inl, inr, ◌≡◌, refl, true, false, none, some, List, [], ◌∷◌, ◌++◌}
use lte.Message.{SMessage}
use lte.Enb.Server.{
  announce, typed_message, accept_client, broadcast_shutdown_notification, hashmap_iter,
  notify_client_of_shutdown, send, server_destroy, close_clients_sockets, close_client_socket,
  close_socket,
}
use lte.Enb.ClientObject.{put_client_in_hashmap, get_client_by_socket}
use lte.Enb.Packet.Frame.{found}
use lte.Ue.Handle.{check_for_shutdown}
use lte.Ue.Main.{Client, Round, main_turn, take_turn, goes_on}
use lte.Ue.Main.Saving.{disk_of}
use lte.System.Network.{inbox}
use lte.System.Shutdown.{shutdown_unheeded}
use lte.Tests.Client.{in_loop}
use lte.Enb.Start.{init_server, server_init}
use lte.Enb.Shutdown.{
  Process, process, gone, use_after_free, serving, joining, cleaned, acting, finished, test_done,
  signals, joins, ping_tests, measure_tests, accepts, started, Step, Reach, start, later,
}
use lte.Enb.Shutdown.Guarded.{IsGuarded, Reach-Guards}
use lte.Enb.Shutdown.Path.{Shuts, IsMeasuring, IsHandling}
use lte.Enb.Shutdown.Ends.{measurement_race, signal_before_handler}
use lte.Enb.Shutdown.Types.{SendsDownlink, Reach-SendsDownlink}
use lte.Tests.Maps.{log_map, one_digit}
use lte.Tests.Enb.{phone, zero_result}
use lte.Tests.Start.{good_startup}
use lte.Tests.Threads
use lte.Tests.Threads.{joined}

abbrev begun : Process log_map
begun = started log_map one_digit zero_result Threads.started

-- A client is accepted on descriptor 5.
abbrev with_client : Process log_map
with_client = record begun { server = joined }

with_client-Reach : Reach log_map one_digit zero_result (process with_client)
unfolding init_server server_init accept_client put_client_in_hashmap
with_client-Reach = later (start good_startup Threads.started refl) (
    accepts begun false (record { descriptor = some 5; memory = phone; registered = true }) refl
      (refl, refl) refl)

-- The measurement thread sleeps, and the client's pong has been read.
abbrev awake : Process log_map
awake = record with_client { measure = acting }

awake-Reach : Reach log_map one_digit zero_result (process awake)
unfolding test_done
awake-Reach = later with_client-Reach (measure_tests with_client refl refl refl)

phone_known : found log_map one_digit joined 5 ≡ some phone
unfolding get_client_by_socket
phone_known = refl

abbrev with_message : Process log_map
with_message = record awake { work = serving (some (5, typed_message 8)) }

-- The SIGINT has come, and the ping thread has ended.
abbrev announced : Process log_map
announced = record awake {
  server = record joined { sent = (5, typed_message 10) ∷ []; threads_done = true };
  work = joining none;
  ping = finished;
}

announced-Reach : Reach log_map one_digit zero_result (process announced)
unfolding test_done announce broadcast_shutdown_notification hashmap_iter notify_client_of_shutdown
    send
announced-Reach =
    later (later awake-Reach (signals awake none refl refl refl))
      (ping_tests (record announced { ping = awake.ping }) refl refl refl)

-- `clean` has returned: the sockets of the client and of the server are closed.
abbrev destroyed : Process log_map
destroyed = record announced {
  server = record announced.server { clients = []; closed = 5 ∷ 3 ∷ [] };
  freed = true;
  work = cleaned none;
}

destroyed-Reach : Reach log_map one_digit zero_result (process destroyed)
unfolding server_destroy close_clients_sockets close_client_socket close_socket hashmap_iter
destroyed-Reach = later announced-Reach (joins announced none refl (refl, refl) refl)

abbrev notice_round : Round
notice_round = record {
  incoming = some (typed_message 10);
  answered = true;
  noted = true;
  opened = none;
  now = 0;
  later = 0;
}

shutdown_unheeded_example :
    ((p : Process log_map) × (more : List SMessage) × Shuts log_map one_digit zero_result
        (process awake)
        (process p)
      × (p.work ≡ cleaned none)
      × (p.freed ≡ true)
      × Step log_map one_digit zero_result (process p) (gone p.server)
      × (inbox 5 p.server.sent ≡ [] ++ typed_message 10 ∷ [] ++ more))
    × ((v : Client) × (take_turn (main_turn notice_round) in_loop ≡ some v)
        × (goes_on v ≡ true)
        × (disk_of v ≡ disk_of in_loop)
        × (v.device.sender.wire ≡ in_loop.device.sender.wire))
shutdown_unheeded_example =
    shutdown_unheeded log_map one_digit zero_result awake 5 phone in_loop notice_round awake-Reach
      refl refl phone_known (unfold goes_on check_for_shutdown in refl) refl

measurement_race_example :
    (r : Process log_map) × Shuts log_map one_digit zero_result (process awake) (process r)
    × (r.work ≡ cleaned none)
    × (r.freed ≡ true)
    × (r.measure ≡ acting)
    × (step : Step log_map one_digit zero_result (process r) use_after_free) × IsMeasuring log_map
        one_digit zero_result step
measurement_race_example = measurement_race log_map one_digit zero_result awake none refl refl refl

signal_before_handler_example :
    (r : Process log_map) × Shuts log_map one_digit zero_result (process with_message) (process r)
    × (r.work ≡ cleaned (some (5, typed_message 8)))
    × (r.freed ≡ true)
    × (let back : Process log_map = record r { work = serving (some (5, typed_message 8)) } in
        Step log_map one_digit zero_result (process r) (process back)
        × (step : Step log_map one_digit zero_result (process back) use_after_free) × IsHandling
            log_map one_digit zero_result 5
            (typed_message 8)
            step)
signal_before_handler_example =
    signal_before_handler log_map one_digit zero_result with_message 5 (typed_message 8) refl refl
      (inr (inr (inr (inr (inl refl)))))

Reach-Guards_example : IsGuarded destroyed
Reach-Guards_example = Reach-Guards log_map one_digit zero_result destroyed-Reach

Reach-SendsDownlink_example : SendsDownlink log_map one_digit zero_result (process destroyed)
Reach-SendsDownlink_example = Reach-SendsDownlink log_map one_digit zero_result destroyed-Reach
