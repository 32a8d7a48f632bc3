-- ===== src/Tests/System.antt =====
-- Tests of the user equipment and the eNodeB together.
use lte.Base.{ℕ, ◌≡◌, refl, arith, true, some, List, [], ◌∷◌, ◌++◌, replicate}
use lte.Message.{SMessage}
use lte.Ue.Main.{Round, main_turn}
use lte.Ue.Main.Connection.{Start, connect_client}
use lte.Enb.Server.{running, send}
use lte.Enb.Packet.{
  extract_preamble_index, response_message, setup_message, handle_random_access_request,
  send_rrc_setup,
}
use lte.Enb.Packet.Frame.{found}
use lte.Enb.Packet.Effects.{admitted}
use lte.Enb.Transfer.{packet}
use lte.System.Handshake.{preamble_message, IsPrompt, IsUp, handshake_lem}
use lte.Ue.Main.{Turn, battery_turn}
use lte.Base.{map, false}
use lte.Tests.Maps.{log_map, one_digit}
use lte.Tests.Enb.{phone, one_client, known}

-- A client that receives what the eNodeB sends to it.
abbrev prompt_start : Start
prompt_start = record {
  socket_ok = true;
  connect_ok = true;
  start_time = 0;
  rand0 = 50;
  rand1 = 40;
  ra_rnti = 0xc001;
  preamble_written = true;
  response = some (response_message (extract_preamble_index 0xc001) 9);
  identity = record { mme_code = 1; mtmsi = 2 };
  request_written = true;
  setup = some (setup_message 0xc001);
  complete_written = true;
}

prompt_start-IsPrompt :
    IsPrompt prompt_start
      (response_message (extract_preamble_index 0xc001) 9)
      (setup_message 0xc001)
prompt_start-IsPrompt = record {
  opens = refl;
  connects = refl;
  preamble = refl;
  request = refl;
  complete = refl;
  first = refl;
  second = refl;
}

handshake_lem_example :
    let response = response_message (extract_preamble_index 0xc001) 9 in
    let setup = setup_message 0xc001 in
    let t =
      handle_random_access_request log_map one_digit 5 (preamble_message 0xc001) 9 one_client in
    (t.sent ≡ (5, response) ∷ [])
    × (found log_map one_digit t 5 ≡ some (admitted log_map one_digit 0xc001 9 phone))
    × (send_rrc_setup log_map one_digit 5 t ≡ running (send log_map one_digit 5 setup t))
    × IsUp (connect_client prompt_start)
handshake_lem_example =
    handshake_lem log_map one_digit 5 9 one_client prompt_start known (omega arith)
      prompt_start-IsPrompt

abbrev round_with : SMessage → Round
round_with m = record {
  incoming = some m;
  answered = true;
  noted = true;
  opened = some [];
  now = 0;
  later = 0;
}

abbrev sample : List ℕ
sample = replicate 17 3

abbrev name_in_memory : List ℕ
name_in_memory = replicate 16 1

abbrev block_rounds : List Round
block_rounds =
    round_with (packet 14 (replicate 16 3) []) ∷ round_with (packet 14 (3 ∷ replicate 15 0) []) ∷ []

abbrev first_round : Round
first_round = round_with (packet 13 name_in_memory [])

abbrev last_round : Round
last_round = round_with (packet 15 name_in_memory [])

-- The transfer arrives with the battery's turns and another message in between.
abbrev mixed_turns : List Turn
mixed_turns =
    main_turn first_round
      ∷ battery_turn true 5 5
      ∷ map main_turn (round_with (packet 10 name_in_memory []) ∷ block_rounds)
    ++ battery_turn false 9 9 ∷ main_turn last_round ∷ []
