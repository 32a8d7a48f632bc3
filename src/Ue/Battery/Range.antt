-- ===== src/Ue/Battery/Range.antt =====
-- The battery level stays a percentage, and no `int8_t` sum wraps.
use lte.Base.{
  ℕ, ◌+◌, ◌-◌, ◌≡◌, ℤ, pos, ◌≤ℤ◌, pos_part, Bool, true, false, arith, leb, if◌then◌else◌, ltb,
}
use lte.Ue.Battery.{
  UeBattery, Device, check_battery_status, drain, turn, update_battery, lower, decrease_after_ping,
}

abbrev pub InRange : UeBattery → Type 0
InRange b = (pos 0 ≤ℤ b.power_percentage) × (b.power_percentage ≤ℤ pos 100)

-- What a check leaves alone.
pub check_keeps :
    (written : Bool) (step : ℤ) (d : Device)
    → let b = (check_battery_status written step d).battery in
      (b.power_percentage ≡ d.battery.power_percentage)
      × (b.charging ≡ d.battery.charging)
      × (b.starting_time ≡ d.battery.starting_time)
unfolding check_battery_status
check_keeps written step d = ground arith

-- The level that the comments describe, in plain numbers: twelve percent a second, up or down,
-- within 0 and 100.
abbrev pub next_level : Bool → Bool → ℕ → ℕ
next_level false charging p = p
next_level true false p = p - 12
next_level true true p = if ltb 100 (p + 12) then 100 else p + 12

abbrev pub next_charging : Bool → ℕ → Bool
next_charging charging p = if leb p 0 then true else if leb 100 p then false else charging

turn-drain :
    (now later : ℕ) (b : UeBattery)
    → InRange b
    → let p = next_level (leb (b.starting_time + 1) now) b.charging (pos_part b.power_percentage) in
      ((turn (drain now later b)).power_percentage ≡ pos p)
      × ((turn (drain now later b)).charging ≡ next_charging b.charging p)
unfolding turn drain
turn-drain now later b h = ground arith

-- `update_battery` moves a level from 0 to 100 exactly as `next_level` and `next_charging` say,
-- whatever the socket does, and returns 1.
pub update_battery-level :
    (written : Bool) (now later : ℕ) (d : Device)
    → InRange d.battery
    → let (d', status) = update_battery written now later d in
      let p =
        next_level
          (leb (d.battery.starting_time + 1) now)
          d.battery.charging
          (pos_part d.battery.power_percentage) in
      (d'.battery.power_percentage ≡ pos p)
      × (d'.battery.charging ≡ next_charging d.battery.charging p)
      × (status ≡ pos 1)
unfolding update_battery
update_battery-level written now later d h =
    let checked = check_battery_status written (pos 12) d in
    let (level, charge, start) = check_keeps written (pos 12) d in
    ground (arith, turn-drain now later checked.battery (rw level h))

-- A ping that is answered lowers a level from 0 to 100 by two percent, down to 0, and does not
-- change whether the battery charges, whatever the socket does.
pub decrease_after_ping-level :
    (written : Bool) (d : Device)
    → InRange d.battery
    → let b = (decrease_after_ping written d).battery in
      (b.power_percentage ≡ pos (pos_part d.battery.power_percentage - 2))
      × (b.charging ≡ d.battery.charging)
unfolding decrease_after_ping lower
decrease_after_ping-level written d h = ground (arith, check_keeps written (pos 2) d)
