-- ===== src/Ue/Main/Pong.antt =====
-- How a client in its loop answers a ping.
use mathlib.Core.List.{append_assoc}
use lte.Base.{◌≡◌, refl, ◌∙◌, true, some, pos, List, [], ◌∷◌, ◌++◌}
use lte.Message.{SMessage}
use lte.Ue.Battery.{decrease_after_ping}
use lte.Ue.Battery.Written.{check_battery_status-adds}
use lte.Ue.Handle.{send_pong, receive_ping}
use lte.Ue.Main.{
  Client, Round, main_turn, receive, handle_ping, dispatch, settle, settle_result, main_round,
  goes_on, take_turn,
}

-- The `write` of the answer succeeds: the client goes on, and its first new message is the ping
-- with the type of a pong.
pub ping_answered :
    (r : Round) (c : Client) (m : SMessage)
    → goes_on c ≡ true
    → r.incoming ≡ some m
    → m.message_type ≡ 7
    → r.answered ≡ true
    → (d : Client) × (more : List SMessage) × (take_turn (main_turn r) c ≡ some d)
      × (d.device.sender.wire ≡ c.device.sender.wire ++ (record m { message_type = 8 }) ∷ more)
unfolding take_turn main_round dispatch handle_ping receive settle settle_result send_pong
    receive_ping decrease_after_ping
ping_answered r c m on got type told =
    let answer : SMessage = record m { message_type = 8 } in
    let (more, adds) = check_battery_status-adds r.noted (pos 2) (record c.device {
      sender = record { message = answer; wire = c.device.sender.wire ++ answer ∷ [] };
    }) in
    (
      settle r (handle_ping r (receive (some m) c)),
      more,
      rw (on, got, type),
      rw (type, told) (adds ∙ rw append_assoc refl),
    )
