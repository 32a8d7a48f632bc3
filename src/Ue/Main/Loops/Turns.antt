-- ===== src/Ue/Main/Loops/Turns.antt =====
-- A turn of a loop whose condition holds takes a round.
use lte.Base.{ℕ, ◌≡◌, refl, arith, Bool, true, false}
use lte.Ue.Battery.{update_battery}
use lte.Ue.Main.{Client, Round, main_round, goes_on}
use lte.Ue.Main.Loops.{Loops, test_loop, with_client, act_main, act_battery}

-- The test comes out as the condition of the loop says, and closes nothing where it holds.
pub test_loop_lem : (c : Client) (n : ℕ) → (test_loop c n).0 ≡ goes_on c
unfolding test_loop goes_on
test_loop_lem c n = ground arith

pub act_main-on :
    (r : Round) (l : Loops)
    → l.main_done ≡ false
    → goes_on l.client ≡ true
    → act_main r l ≡ with_client l (main_round r l.client)
unfolding act_main
act_main-on r l not_done on = simp (not_done, test_loop_lem, on)

module _ (written : Bool) (now later : ℕ) (l : Loops) where
  unfoldable pub drained : Client
  drained = record l.client { device = (update_battery written now later l.client.device).0 }

  pub act_battery-on :
      l.battery_done ≡ false
      → goes_on l.client ≡ true
      → act_battery written now later l ≡ record l { client = drained }
  unfolding act_battery drained
  act_battery-on not_done on = simp (not_done, test_loop_lem, on)

  pub drained-goes_on : goes_on drained ≡ goes_on l.client
  unfolding drained goes_on
  drained-goes_on = refl
