-- ===== src/Ue/Battery.antt =====
-- user_equipment.c: the battery, its two notifications, and the functions that drain it.
--
-- `power_percentage` is an `int8_t`: the sums are `int` sums, and `wrap_int8` is the conversion
-- when they are stored. `written` says whether `write` succeeds; `now` and `later` are the
-- results of the two calls of `time` in `update_battery`. The `assert`s on null pointers hold at
-- every call of the client, which passes the addresses of globals.
pub mod Range
pub mod Notices
pub mod Written
use lte.Base.{
  ℕ, ◌+◌, ℤ, pos, negsuc, ◌-ℤ◌, ◌+ℤ◌, ltb_ℤ, leb_ℤ, eqb_ℤ, wrap_int8, Bool, true, false, not, ◌&&◌,
  leb, if◌then◌else◌,
}
use lte.Message.{type_code, ue_battery_low, ue_battery_high}
use lte.Ue.Sender.{Sender, write_message, set_type}

pub record UeBattery : Type 0 where
  pub power_percentage : ℤ
  pub power_is_low : Bool
  pub charging : Bool
  pub sent_notification : Bool
  pub starting_time : ℕ

-- What the functions below share: the socket's buffer and the battery.
pub record Device : Type 0 where
  pub sender : Sender
  pub battery : UeBattery

unfoldable pub initialize_battery_life : ℕ → UeBattery
initialize_battery_life now = record {
  power_percentage = pos 100;
  power_is_low = false;
  charging = false;
  sent_notification = false;
  starting_time = now;
}

unfoldable pub send_low_battery_notification : Bool → Sender → Sender × ℤ
send_low_battery_notification written s =
    write_message written (set_type (type_code ue_battery_low) s)

unfoldable pub send_high_battery_notification : Bool → Sender → Sender × ℤ
send_high_battery_notification written s =
    write_message written (set_type (type_code ue_battery_high) s)

-- `if(send_…(socketfd, message) == 0) battery->sent_notification = true;`
abbrev note_sent : UeBattery → Sender × ℤ → Device
note_sent b (s, status) = record {
  sender = s;
  battery = if eqb_ℤ status (pos 0) then record b { sent_notification = true } else b;
}

abbrev pub low_battery_threshold : ℤ
low_battery_threshold = pos 20

abbrev is_low : ℤ → UeBattery → Bool
is_low step b =
    leb_ℤ b.power_percentage low_battery_threshold
    && (ltb_ℤ (low_battery_threshold -ℤ step) b.power_percentage && not b.charging)

abbrev is_high : ℤ → UeBattery → Bool
is_high step b =
    leb_ℤ low_battery_threshold b.power_percentage
    && (ltb_ℤ b.power_percentage (low_battery_threshold +ℤ step) && b.charging)

unfoldable pub check_battery_status : Bool → ℤ → Device → Device
unfolding send_low_battery_notification send_high_battery_notification
check_battery_status written step d =
    let low = record d.battery { power_is_low = true } in
    let high = record d.battery { power_is_low = false } in
    if is_low step d.battery
    then (if not d.battery.sent_notification
        then note_sent low (send_low_battery_notification written d.sender)
        else record d { battery = low })
    else if is_high step d.battery
    then (if not d.battery.sent_notification
        then note_sent high (send_high_battery_notification written d.sender)
        else record d { battery = high })
    else d

abbrev pub update_step : ℤ
update_step = pos 12

-- The change of the level once `battery_decrease_time` of one second has passed.
unfoldable pub drain : ℕ → ℕ → UeBattery → UeBattery
drain now later b =
    if leb (b.starting_time + 1) now
    then record b {
      power_percentage = wrap_int8 (
          if not b.charging
          then b.power_percentage -ℤ update_step
          else b.power_percentage +ℤ update_step);
      starting_time = later;
    }
    else b

-- The clamping at both ends, which also turns the charger on and off.
unfoldable pub turn : UeBattery → UeBattery
turn b =
    if leb_ℤ b.power_percentage (pos 0)
    then record b { sent_notification = false; power_percentage = pos 0; charging = true }
    else if leb_ℤ (pos 100) b.power_percentage
    then record b { sent_notification = false; power_percentage = pos 100; charging = false }
    else b

-- The result is always 1.
unfoldable pub update_battery : Bool → ℕ → ℕ → Device → Device × ℤ
update_battery written now later d =
    let checked = check_battery_status written update_step d in
    (record checked { battery = turn (drain now later checked.battery) }, pos 1)

abbrev pub decrease_amount : ℤ
decrease_amount = pos 2

unfoldable pub lower : UeBattery → UeBattery
lower b =
    if ltb_ℤ (b.power_percentage -ℤ decrease_amount) (pos 0)
    then record b { power_percentage = pos 0 }
    else if not (eqb_ℤ b.power_percentage (pos 0))
        && leb_ℤ (pos 0) (b.power_percentage -ℤ decrease_amount)
    then record b { power_percentage = wrap_int8 (b.power_percentage -ℤ decrease_amount) }
    else b

unfoldable pub decrease_after_ping : Bool → Device → Device
decrease_after_ping written d =
    let checked = check_battery_status written decrease_amount d in
    record checked { battery = lower checked.battery }
