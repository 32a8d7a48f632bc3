-- ===== src/Ue/Battery/Written.antt =====
-- What a check of the battery writes.
use lte.Base.{
  ℕ, ◌≡◌, sym, arith, ℤ, not, Bool, true, false, Bool-cases, inl, inr, List, [], ◌∷◌, ◌++◌,
}
use mathlib.Core.List.{append-nil}
use lte.Message.{SMessage}
use lte.Message.Types.{TypesAre}
use lte.Ue.Sender.{set_type, write_message-TypesAre}
use lte.Ue.Battery.{Device, is_low, is_high, check_battery_status}

-- The check writes at most one more message, after those that were written before.
pub check_battery_status-adds :
    (written : Bool) (step : ℤ) (d : Device)
    → (more : List SMessage) × ((check_battery_status written step d).sender.wire
        ≡ d.sender.wire ++ more)
unfolding check_battery_status
check_battery_status-adds false step d = ([], ground (arith, sym (append-nil d.sender.wire)))
check_battery_status-adds true step d = elim (Bool-cases (is_low step d.battery)) [
  | inl low ↦ elim (Bool-cases (not d.battery.sent_notification)) [
    | inl first ↦ ((set_type 5 d.sender).message ∷ [], rw (low, first))
    | inr again ↦ ([], rw (low, again) (sym (append-nil _)))
  ]
  | inr other ↦ elim (Bool-cases (is_high step d.battery)) [
    | inr quiet ↦ ([], rw (other, quiet) (sym (append-nil _)))
    | inl high ↦ elim (Bool-cases (not d.battery.sent_notification)) [
      | inl first ↦ ((set_type 6 d.sender).message ∷ [], rw (other, high, first))
      | inr again ↦ ([], rw (other, high, again) (sym (append-nil _)))
    ]
  ]
]

-- The check writes notices alone.
pub check_battery_status-TypesAre :
    (P : ℕ → Type 0) (written : Bool) (step : ℤ) (d : Device)
    → P 5
    → P 6
    → TypesAre P d.sender.wire
    → TypesAre P (check_battery_status written step d).sender.wire
unfolding check_battery_status
check_battery_status-TypesAre P true step d low high all =
    let lows = write_message-TypesAre P true (set_type 5 d.sender) all low in
    let highs = write_message-TypesAre P true (set_type 6 d.sender) all high in
    ground (arith, lows, highs)
check_battery_status-TypesAre P false step d low high all = ground arith
