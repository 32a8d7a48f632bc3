-- ===== src/Tests/Network.antt =====
-- Tests of the eNodeB and a client with the messages under way between them.
use lte.Base.{arith, none, some, ◌≡◌, refl, ℕ, true, List, [], ◌∷◌, ◌++◌}
use lte.Ue.Handle.{check_for_shutdown}
use lte.Ue.Rrc.{send_rrc_connection_request, receive_rrc_setup, send_rrc_setup_complete}
use lte.Ue.Main.{goes_on}
use lte.Ue.Main.Saving.{disk_of}
use lte.Enb.Transfer.{broadcast_sample, send_blocks, end_transfer, data_packet}
use lte.Enb.Ping.{ping_clients, request_measurements}
use lte.System.Measurement.{report_is_dropped}
use lte.System.Network.{inbox, with_wire, Pair, both, Leads, Reach, start, later, pings}
use lte.System.Network.Kept.{IsSafe}
use lte.System.Network.Safety.{whole_file, arrived, Reach-IsSafe, file_arrives}
use lte.System.Network.Progress.{Leads-Reaches, transfer_finishes}
use lte.Enb.Server.{running, typed_message}
use lte.Enb.Packet.{dispatch}
use lte.Enb.Packet.Frame.{found}
use lte.Enb.Ping.{drop_clients}
use lte.Message.{SMessage, decode_type, get_events, event_code}
use lte.Ue.Main.{main_turn, Round, Client, take_turn}
use lte.System.KeepAlive.{after_pong, heard_at, ping_keeps_alive}
use lte.Base.{inl, if◌then◌else◌}
use lte.Enb.ClientObject.{ok, low}
use lte.Enb.Server.{Server}
use lte.Ue.Battery.{update_battery, check_battery_status, drain, turn, initialize_battery_life}
use lte.Ue.Battery.Notices.{run_updates, fresh}
use lte.System.Notices.{idle, IsTelling, hear_all, notices_arrive}
use lte.Tests.Maps.{log_map, one_digit}
use lte.Tests.Enb.{phone, one_client, zero_result, known, at_time, one_client-IsConsistent}
use lte.Tests.Client.{good_start, connected, connects, in_loop}

abbrev few_bytes : List ℕ
few_bytes = 1 ∷ 2 ∷ 3 ∷ []

-- The client has connected, and the file is to be sent to it.
abbrev begun : Pair log_map
begun = record {
  client = with_wire [] connected;
  server = one_client;
  file = whole_file [] [] few_bytes;
}

begun-Reach : Reach log_map one_digit zero_result 5 [] [] [] few_bytes (both begun)
begun-Reach =
    start good_start connected one_client phone (λ n. true) (whole_file [] [] few_bytes) 1 connects
      (unfold goes_on check_for_shutdown send_rrc_connection_request receive_rrc_setup
          send_rrc_setup_complete in
        refl)
      known refl refl (λ n. refl)
      (unfold broadcast_sample send_blocks end_transfer data_packet in refl)

-- A ping goes out before the file does.
abbrev pinged : Pair log_map
pinged = record begun { server = ping_clients log_map one_digit (at_time 9) one_client }

pinged-Reach : Reach log_map one_digit zero_result 5 [] [] [] few_bytes (both pinged)
pinged-Reach = later begun-Reach (pings begun (at_time 9) refl refl)

Reach-IsSafe_example :
    IsSafe log_map one_digit zero_result 5 [] (arrived [] few_bytes) (both pinged)
Reach-IsSafe_example = Reach-IsSafe log_map one_digit zero_result 5 [] [] [] few_bytes pinged-Reach

-- Where the rest of the transfer ends.
abbrev rest_of_transfer :
    (q : Pair log_map) × Leads log_map one_digit zero_result 5 [] (both pinged) (both q)
    × (q.file ≡ [])
    × (inbox 5 q.server.sent ≡ [])
    × (disk_of q.client ≡ arrived [] few_bytes)
rest_of_transfer =
    transfer_finishes log_map one_digit zero_result 5 [] [] [] few_bytes pinged pinged-Reach

transfer_finishes_example :
    (q : Pair log_map) × Leads log_map one_digit zero_result 5 [] (both pinged) (both q)
    × (q.file ≡ [])
    × (inbox 5 q.server.sent ≡ [])
    × (disk_of q.client ≡ arrived [] few_bytes)
transfer_finishes_example =
    transfer_finishes log_map one_digit zero_result 5 [] [] [] few_bytes pinged pinged-Reach

file_arrives_example : disk_of rest_of_transfer.0.client ≡ arrived [] few_bytes
file_arrives_example =
    file_arrives log_map one_digit zero_result 5 [] [] [] few_bytes rest_of_transfer.0
      (Leads-Reaches log_map one_digit zero_result 5 [] [] [] few_bytes pinged-Reach
        rest_of_transfer.1)
      rest_of_transfer.2 rest_of_transfer.3

abbrev ping_round : Round
ping_round = record {
  incoming = some (typed_message 7);
  answered = true;
  noted = true;
  opened = none;
  now = 0;
  later = 0;
}

ping_keeps_alive_example :
    let y = ping_clients log_map one_digit (at_time 9) one_client in
    let z = after_pong log_map one_digit 5 10 phone y in
    (inbox 5 y.sent ≡ typed_message 7 ∷ [])
    × (v : Client) × (more : List SMessage) × (take_turn (main_turn ping_round) in_loop ≡ some v)
    × (v.device.sender.wire ≡ typed_message 8 ∷ more)
    × (dispatch log_map one_digit (decode_type 8) 5 (typed_message 8) 10 y ≡ running z)
    × (found log_map one_digit (drop_clients log_map one_digit (at_time 4000) [] z) 5
        ≡ some (heard_at log_map one_digit 10 phone))
ping_keeps_alive_example =
    ping_keeps_alive log_map one_digit one_client 5 10 phone (at_time 9) (at_time 4000) []
      ping_round in_loop one_client-IsConsistent known refl
      (unfold goes_on check_for_shutdown in refl) refl refl tt (omega arith)

-- Eight seconds take the battery to 4 percent.
abbrev eight_seconds : List (ℕ × ℕ)
eight_seconds = (1, 1) ∷ (2, 2) ∷ (3, 3) ∷ (4, 4) ∷ (5, 5) ∷ (6, 6) ∷ (7, 7) ∷ (8, 8) ∷ []

nearly_empty : IsTelling (run_updates eight_seconds (fresh 0 idle)).battery
unfolding run_updates update_battery check_battery_status drain turn initialize_battery_life
nearly_empty = inl (refl, omega arith)

notices_arrive_example :
    let d = run_updates eight_seconds (fresh 0 idle) in
    let kept = record phone { battery_state = if d.battery.charging then ok else low } in
    (y : Server log_map) × (hear_all log_map one_digit 5 9 d.sender.wire one_client ≡ running y)
    × (found log_map one_digit y 5 ≡ some kept)
notices_arrive_example =
    notices_arrive log_map one_digit 5 9 0 eight_seconds one_client phone known nearly_empty

abbrev request_round : Round
request_round = record ping_round { incoming = some (typed_message 11) }

report_is_dropped_example :
    (inbox 5 (request_measurements log_map one_digit one_client).sent
      ≡ inbox 5 one_client.sent ++ typed_message 11 ∷ [])
    × (v : Client) × (m : SMessage) × (take_turn (main_turn request_round) in_loop ≡ some v)
    × (v.device.sender.wire ≡ in_loop.device.sender.wire ++ m ∷ [])
    × (get_events m ≡ event_code in_loop.cells.current_event)
    × (dispatch log_map one_digit (decode_type m.message_type) 5 m 9 begun.server
        ≡ running begun.server)
report_is_dropped_example =
    report_is_dropped log_map one_digit one_client begun.server 5 9 phone request_round in_loop
      one_client-IsConsistent known (unfold goes_on check_for_shutdown in refl) refl refl
