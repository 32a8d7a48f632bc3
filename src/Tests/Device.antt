-- ===== src/Tests/Device.antt =====
-- Tests of the battery and the cells of the client.
use lte.Base.{ℕ, ◌≡◌, ◌≤◌, refl, arith, ℤ, pos, negsuc, Bool, false, List, [], ◌∷◌, ◌+◌}
use lte.Message.{zero_message, a1, a3, def}
use lte.Ue.Sender.{Sender}
use lte.Ue.Battery.{
  UeBattery, Device, initialize_battery_life, check_battery_status, drain, turn, update_battery,
}
use lte.Ue.Battery.Notices.{IsNoticed, run_updates, run_updates-IsNoticed, fresh}
use lte.Ue.Cells.{SCellSignal, SCells, initial_events, initialize_cells, below, check_events}
use lte.Ue.Cells.Bounds.{IsSignal, AreSignals, run_signals, run_signals-AreSignals}
use lte.Ue.Cells.Events.{run_events, count_event, a3_once}

abbrev pub idle_sender : Sender
idle_sender = record { message = zero_message; wire = [] }

abbrev pub battery_at : ℕ → Bool → UeBattery
battery_at p charging = record {
  power_percentage = pos p;
  power_is_low = false;
  charging = charging;
  sent_notification = false;
  starting_time = 0;
}

abbrev pub device_at : ℕ → Bool → Device
device_at p charging = record { sender = idle_sender; battery = battery_at p charging }

-- Seven seconds drain 84 percent, and the eighth check sends the notice.
drained :
    (run_updates
      ((1, 1) ∷ (2, 2) ∷ (3, 3) ∷ (4, 4) ∷ (5, 5) ∷ (6, 6) ∷ (7, 7) ∷ (7, 7) ∷ [])
      (fresh 0 idle_sender)).battery.power_percentage
    ≡ pos 16
unfolding run_updates update_battery initialize_battery_life check_battery_status drain turn
drained = refl

run_updates-IsNoticed_example : IsNoticed (run_updates ((1, 1) ∷ (2, 2) ∷ []) (fresh 0 idle_sender))
run_updates-IsNoticed_example = run_updates-IsNoticed 0 idle_sender ((1, 1) ∷ (2, 2) ∷ [])

abbrev signal_at : ℕ → ℤ → SCellSignal
signal_at p course = record {
  rsrp = pos p;
  threshold1 = pos 19;
  threshold2 = pos 77;
  signal_course = course;
}

signal_at-IsSignal : IsSignal (signal_at 40 (pos 5)) × IsSignal (signal_at 40 (negsuc 4))
signal_at-IsSignal = ground arith

run_signals-AreSignals_example :
    AreSignals (run_signals ((2, 2) ∷ (4, 4) ∷ []) (initialize_cells 96 5 0) initial_events).0
run_signals-AreSignals_example = run_signals-AreSignals 96 5 0 ((2, 2) ∷ (4, 4) ∷ []) initial_events

abbrev pub cells_at : ℕ → ℕ → SCells
cells_at p q = record {
  serving = signal_at p (pos 5);
  neighbour = signal_at q (pos 5);
  starting_time = 0;
  current_event = def;
}

abbrev three_calls : List SCells
three_calls = cells_at 10 10 ∷ cells_at 30 40 ∷ cells_at 40 90 ∷ []

three_events : run_events three_calls initial_events ≡ def ∷ a1 ∷ a3 ∷ []
unfolding run_events check_events below
three_events = refl

a3_once_example : count_event a3 (run_events three_calls initial_events) + 0 ≤ 1
a3_once_example = a3_once three_calls initial_events (omega arith)
