-- ===== src/Ue/Main/Race.antt =====
-- What the lock of the battery thread does not protect: `main` receives into the global `message`
-- without it, so that a notice can fall between `recv` and the `switch`.
use lte.Base.{ℕ, ◌≡◌, ◌≤◌, refl, ap, Bool, true, false, arith, Option, some, pos, [], ◌∷◌, ◌++◌}
use lte.Message.{SMessage, decode_type}
use lte.Ue.Battery.{Device, check_battery_status, update_battery}
use lte.Ue.Main.{Client, Round, receive, dispatch, settle, settle_result}
use lte.Ue.Main.Saving.{disk_of}

-- The middle of a round of `main`: a whole round of `battery_thread` runs after the `recv`.
abbrev pub between : Bool → ℕ → ℕ → Client → Client
between written now later c = record c { device = (update_battery written now later c.device).0 }

unfoldable pub split_round : Round → Bool → ℕ → ℕ → Client → Option Client
unfolding receive dispatch settle settle_result
split_round r written now later c =
    let got = between written now later (receive r.incoming c) in
    settle_result r (dispatch (decode_type got.device.sender.message.message_type) r got)

update_battery-notice :
    (now later p : ℕ) (d : Device)
    → d.battery.power_percentage ≡ pos p
    → 9 ≤ p
    → p ≤ 20
    → d.battery.charging ≡ false
    → d.battery.sent_notification ≡ false
    → let notice = record d.sender.message { message_type = 5 } in
      ((update_battery true now later d).0.sender.message ≡ notice)
      × ((update_battery true now later d).0.sender.wire ≡ d.sender.wire ++ notice ∷ [])
unfolding update_battery check_battery_status
update_battery-notice now later p d level low high charging fresh = ground arith

-- A message of any type that arrives while the battery first reaches its window is lost when the
-- notice falls between `recv` and the `switch`: the round leaves the client's files alone, and
-- what goes to the eNodeB is the message itself under the type of the notice.
pub notice_loses_message :
    (r : Round) (m : SMessage) (now later p : ℕ) (c : Client)
    → r.incoming ≡ some m
    → c.device.battery.power_percentage ≡ pos p
    → 9 ≤ p
    → p ≤ 20
    → c.device.battery.charging ≡ false
    → c.device.battery.sent_notification ≡ false
    → let after = split_round r true now later c in
      (c' : Client) × (after ≡ some c')
      × (disk_of c' ≡ disk_of c)
      × (c'.device.sender.wire ≡ c.device.sender.wire ++ (record m { message_type = 5 }) ∷ [])
unfolding split_round
notice_loses_message r m now later p c got level low high charging fresh =
    let arrived = receive (some m) c in
    let (message, wire) =
      update_battery-notice now later p arrived.device level low high charging fresh in
    let typed : (update_battery true now later arrived.device).0.sender.message.message_type ≡ 5 =
      ap (λ (x : SMessage). x.message_type) message in
    (settle r (between true now later arrived), rw got (rw typed), refl, wire)
