-- ===== src/Ue/Main/Loops.antt =====
-- clientLTE/main.c and shutdown.c: the two loops of the client as two threads that end, each when
-- it tests the condition, with the `close` of the socket that the test makes.
--
-- A turn is one of Ue.Main: a round of a loop from its test on, or a SIGINT.
pub mod Turns
pub mod Closing
pub mod Interrupt
use lte.Base.{ℕ, ◌+◌, Bool, true, false, if◌then◌else◌, Option, none, some, List, [], ◌∷◌}
use lte.Ue.Battery.{update_battery}
use lte.Ue.Handle.{check_for_shutdown}
use lte.Ue.Main.{Client, Round, Turn, main_turn, battery_turn, interrupt, main_round}

-- `closes` counts the calls of `close(socket_fd)`; a thread that is done has left its loop.
pub record Loops : Type 0 where
  pub client : Client
  pub closes : ℕ
  pub main_done : Bool
  pub battery_done : Bool

-- Both loops are about to test their condition for the first time.
abbrev pub start_loops : Client → Loops
start_loops c = record { client = c; closes = 0; main_done = false; battery_done = false }

-- `running && !check_for_shutdown(socket_fd, &received)`: the result, and the closes so far.
unfoldable pub test_loop : Client → ℕ → Bool × ℕ
test_loop c closes =
    if c.running
    then (if check_for_shutdown c.received then (false, closes + 1) else (true, closes))
    else (false, closes)

unfoldable pub with_client : Loops → Option Client → Option Loops
with_client l none = none
with_client l (some c) = some (record l { client = c })

-- The test of the loop in `main`, and the round that follows where it holds.
unfoldable pub act_main : Round → Loops → Option Loops
unfolding with_client
act_main r l =
    let (on, closes) = test_loop l.client l.closes in
    if l.main_done
    then some l
    else if on
    then with_client l (main_round r l.client)
    else some (record l { closes = closes; main_done = true })

-- The test of the loop in `battery_thread`, and the round that follows where it holds.
unfoldable pub act_battery : Bool → ℕ → ℕ → Loops → Loops
act_battery written now later l =
    let (on, closes) = test_loop l.client l.closes in
    let (device, _) = update_battery written now later l.client.device in
    if l.battery_done
    then l
    else if on
    then record l { client = record l.client { device = device } }
    else record l { closes = closes; battery_done = true }

unfoldable pub act : Turn → Loops → Option Loops
act (main_turn r) l = act_main r l
act (battery_turn written now later) l = some (act_battery written now later l)
act interrupt l = some (record l { client = record l.client { running = false } })

act_result : (Loops → Option Loops) → Option Loops → Option Loops
act_result f none = none
act_result f (some l) = f l

unfoldable pub run_loops : List Turn → Loops → Option Loops
unfolding act_result
run_loops [] l = some l
run_loops (t ∷ ts) l = act_result (run_loops ts) (act t l)
