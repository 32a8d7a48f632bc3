-- ===== src/Ue/Battery/Notices.antt =====
-- The notifications of the battery over a whole run of `update_battery`: the window in which
-- `check_battery_status` looks is as wide as the step of the battery, so that no run steps over it.
use lte.Base.{
  ℕ, zero, suc, ◌+◌, ◌*◌, ◌≤◌, ◌<◌, ◌≡◌, refl, pos, pos_part, Bool, true, false, arith, List, [],
  ◌∷◌, ◌++◌, Option, none, some, if◌then◌else◌, ◌⊎◌, inl, inr, Bool-cases, leb,
}
use lte.Message.{SMessage}
use lte.Ue.Sender.{Sender, set_type}
use lte.Ue.Battery.{
  Device, initialize_battery_life, check_battery_status, update_battery, drain, turn,
  decrease_after_ping, lower,
}
use lte.Ue.Battery.Range.{InRange, update_battery-level}

-- The type of the message that was sent last.
abbrev pub last_type : List SMessage → Option ℕ
last_type [] = none
last_type (m ∷ []) = some m.message_type
last_type (m ∷ n ∷ ms) = last_type (n ∷ ms)

pub last_type-append :
    (ms : List SMessage) (m : SMessage) → last_type (ms ++ m ∷ []) ≡ some m.message_type
last_type-append [] m = refl
last_type-append (n ∷ []) m = refl
last_type-append (n ∷ k ∷ ms) m = last_type-append (k ∷ ms) m

-- `ue_battery_low` while the battery drains, `ue_battery_high` while it charges.
abbrev pub due_type : Bool → ℕ
due_type charging = if charging then 6 else 5

-- Well below the threshold while draining, or well above it while charging, the eNodeB knows.
pub record IsNoticed (d : Device) : Type 0 where
  pub in_range : InRange d.battery
  pub told :
      (d.battery.sent_notification ≡ false)
      ⊎ (last_type d.sender.wire ≡ some (due_type d.battery.charging))
  pub low :
      (d.battery.charging ≡ true)
      ⊎ (8 < pos_part d.battery.power_percentage)
      ⊎ ((d.battery.sent_notification ≡ true) × (d.battery.power_is_low ≡ true))
  pub high :
      (d.battery.charging ≡ false)
      ⊎ (pos_part d.battery.power_percentage < 32)
      ⊎ ((d.battery.sent_notification ≡ true) × (d.battery.power_is_low ≡ false))

update-IsNoticed :
    (now later : ℕ) (d : Device) → IsNoticed d → IsNoticed (update_battery true now later d).0
unfolding update_battery check_battery_status drain turn
update-IsNoticed now later d h = ground (
  arith,
  last_type-append d.sender.wire (set_type 5 d.sender).message,
  last_type-append d.sender.wire (set_type 6 d.sender).message,
)

-- The battery thread on its own: each round has the results of its two calls of `time`.
unfoldable pub run_updates : List (ℕ × ℕ) → Device → Device
run_updates [] d = d
run_updates ((now, later) ∷ ticks) d = run_updates ticks (update_battery true now later d).0

run_updates-keeps :
    (ticks : List (ℕ × ℕ)) (d : Device) → IsNoticed d → IsNoticed (run_updates ticks d)
unfolding run_updates
run_updates-keeps [] d h = h
run_updates-keeps ((now, later) ∷ ticks) d h =
    run_updates-keeps ticks (update_battery true now later d).0 (update-IsNoticed now later d h)

abbrev pub fresh : ℕ → Sender → Device
fresh start s = record { sender = s; battery = initialize_battery_life start }

-- From a new battery, whatever the clock shows and as long as `write` succeeds, the level stays
-- within 0 and 100, and `IsNoticed` holds after every run of `update_battery`: at 8 percent or
-- less while draining `power_is_low` is set and the last message sent is `ue_battery_low`, and
-- at 32 percent or more while charging it is cleared and the last one is `ue_battery_high`.
pub run_updates-IsNoticed :
    (start : ℕ) (s : Sender) (ticks : List (ℕ × ℕ)) → IsNoticed (run_updates ticks (fresh start s))
run_updates-IsNoticed start s ticks =
    run_updates-keeps ticks (fresh start s) (unfold initialize_battery_life in ground arith)

-- One round in which the second has passed.
abbrev pub tick : Bool → Device → Device
tick written d = let now = d.battery.starting_time + 1 in (update_battery written now now d).0

abbrev pub ticks_on : Bool → ℕ → Device → Device
ticks_on written zero d = d
ticks_on written (suc n) d = ticks_on written n (tick written d)

-- A draining battery of at most `12 * n` percent is empty, and is put on the charger, after
-- some number of at most `n` elapsed seconds, whether or not its messages get through.
discharge_ends :
    (written : Bool) (n : ℕ) (d : Device)
    → InRange d.battery
    → d.battery.charging ≡ false
    → 0 < n
    → pos_part d.battery.power_percentage ≤ 12 * n
    → (k : ℕ) × (k ≤ n)
      × ((ticks_on written k d).battery.power_percentage ≡ pos 0)
      × ((ticks_on written k d).battery.charging ≡ true)
discharge_ends written zero d r c h p = absurd (omega arith)
discharge_ends written (suc n) d r c h p =
    let now = d.battery.starting_time + 1 in
    let step = update_battery-level written now now d r in
    elim (Bool-cases (leb (pos_part d.battery.power_percentage) 12)) [
      | inl last ↦ (1, omega arith, ground (arith, step), ground (arith, step))
      | inr more ↦
          let (k, bound, empty, charge) =
            discharge_ends written n (tick written d) (ground (arith, step)) (ground (arith, step))
              (ground arith) (ground (arith, step)) in
          (suc k, omega arith, empty, charge)
    ]

-- A ping that arrives at 9 or 10 percent, after a tick of the battery and before the next check
-- of the battery thread, takes the level below the window: the ping sends no notice, and the
-- next `update_battery` sends none either and leaves `sent_notification` clear.
ping_skips_notice :
    (first second : Bool) (now later : ℕ) (d : Device)
    → d.battery.charging ≡ false
    → d.battery.sent_notification ≡ false
    → (d.battery.power_percentage ≡ pos 9) ⊎ (d.battery.power_percentage ≡ pos 10)
    → let d' = (update_battery second now later (decrease_after_ping first d)).0 in
      (d'.sender.wire ≡ d.sender.wire) × (d'.battery.sent_notification ≡ false)
unfolding update_battery decrease_after_ping check_battery_status drain turn lower
ping_skips_notice first second now later d c s p = ground arith
