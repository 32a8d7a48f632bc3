-- ===== src/Tests/Program.antt =====
-- Tests of the client's whole program.
use lte.Base.{◌&&◌, ◌≡◌, refl, arith, true, none, List, [], ◌∷◌, ◌++◌}
use lte.Ue.Sender.{Sender, set_type}
use lte.Ue.Handle.{check_for_shutdown}
use lte.Ue.Rrc.{send_rrc_connection_request, receive_rrc_setup, send_rrc_setup_complete}
use lte.Ue.Main.{Client, Turn, main_turn, interrupt, goes_on}
use lte.Ue.Main.Saving.{Disk, disk_of}
use lte.Ue.Main.Program.{Kernel, ended, run_client}
use lte.Ue.Main.Program.Types.{ExitWrites, run_client-AreUplink}
use lte.Ue.Main.Connect.{answers}
use lte.Ue.Main.Program.Reaches.{has_begun, run_client_reaches}
use lte.Ue.Main.Program.Ends.{run_client_ends}
use lte.Tests.Client.{good_start, connected, connects, file_turns, file_round}

-- A whole file, and then a SIGINT with a round of each loop behind it.
abbrev whole_file : List Turn
whole_file = file_turns ++ main_turn (file_round 15) ∷ []

abbrev late_turns : List Turn
late_turns = main_turn (file_round 13) ∷ []

abbrev pub good_kernel : Kernel
good_kernel = record {
  first_mutex = true;
  second_mutex = true;
  start = good_start;
  thread_created = true;
  turns = whole_file ++ interrupt ∷ late_turns;
  thread_joined = true;
  ue_off_written = true;
}

abbrev one_file : Disk
one_file = record { open_file = none; saved = (1 ∷ 2 ∷ []) ∷ [] }

run_client_ends_example :
    (c' : Client) × (s : Sender) × (run_client 2 good_kernel ≡ ended c' s)
    × (disk_of c' ≡ one_file)
    × (s.wire ≡ c'.device.sender.wire ++ (set_type 9 c'.device.sender).message ∷ [])
run_client_ends_example =
    run_client_ends 2 good_kernel connected whole_file late_turns one_file (omega arith) refl refl
      connects
      (unfold goes_on check_for_shutdown send_rrc_connection_request receive_rrc_setup
          send_rrc_setup_complete in
        refl)
      refl refl (λ x. x, (λ x. x, (λ x. x, (λ x. x, tt)))) refl refl refl

run_client-AreUplink_example : ExitWrites (run_client 2 good_kernel)
run_client-AreUplink_example = run_client-AreUplink good_kernel 2

run_client_reaches_example :
    has_begun (run_client 2 good_kernel)
    ≡ true
      && (true
          && (true
              && ((true && (true && (true && (answers 7 good_start.response && true)))) && true)))
run_client_reaches_example = run_client_reaches 2 good_kernel (omega arith)
