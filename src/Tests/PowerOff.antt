-- ===== src/Tests/PowerOff.antt =====
-- Tests of the end of a client at the eNodeB.
use lte.Base.{◌≡◌, ◌≢◌, refl, true, false, ℕ, none, [], ◌∷◌, ◌++◌}
use lte.Message.{SMessage, decode_type}
use lte.Ue.Sender.{Sender}
use lte.Ue.Main.{Client, interrupt, goes_on, take_turn, run, finish}
use lte.Ue.Main.Program.{Kernel, ended, join_and_finish, run_connected, run_client}
use lte.Enb.Server.{Server, running}
use lte.Enb.Packet.{dispatch}
use lte.Enb.Packet.Frame.{found}
use lte.System.PowerOff.{power_off_arrives}
use lte.Tests.Client.{connected, connects}
use lte.Tests.Program.{good_kernel}
use lte.Tests.Maps.{log_map, one_digit}
use lte.Tests.Enb.{one_client}

-- A SIGINT comes before the first round.
abbrev off_kernel : Kernel
off_kernel = record good_kernel { turns = interrupt ∷ [] }

abbrev off_client : Client
off_client = record connected { running = false }

abbrev off_sender : Sender
off_sender = finish true off_client

turned_off : run_client 2 off_kernel ≡ ended off_client off_sender
unfolding run_client run_connected join_and_finish run take_turn goes_on
turned_off = rw connects refl

power_off_arrives_example :
    (m : SMessage) × (y : Server log_map) × (off_sender.wire
      ≡ off_client.device.sender.wire ++ m ∷ [])
    × (dispatch log_map one_digit (decode_type m.message_type) 5 m 9 one_client ≡ running y)
    × (found log_map one_digit y 5 ≡ none)
    × ((other : ℕ)
        → 5 ≢ other
        → found log_map one_digit y other ≡ found log_map one_digit one_client other)
    × (y.closed ≡ one_client.closed ++ 5 ∷ [])
power_off_arrives_example =
    power_off_arrives log_map one_digit 2 off_kernel off_client off_sender one_client 5 9 turned_off
      refl
