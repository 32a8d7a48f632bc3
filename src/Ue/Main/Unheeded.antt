-- ===== src/Ue/Main/Unheeded.antt =====
-- What the notice of the eNodeB's shutdown does to a client in its loop.
use lte.Base.{◌≡◌, refl, true, some}
use lte.Message.{SMessage}
use lte.Ue.Main.{
  Client, Round, main_turn, receive, dispatch, settle, settle_result, main_round, goes_on,
  take_turn,
}
use lte.Ue.Main.Saving.{disk_of}

-- The round goes on to the next, writes nothing and leaves the files alone.
pub notice_unheeded :
    (r : Round) (u : Client) (m : SMessage)
    → goes_on u ≡ true
    → r.incoming ≡ some m
    → m.message_type ≡ 10
    → (v : Client) × (take_turn (main_turn r) u ≡ some v)
      × (goes_on v ≡ true)
      × (disk_of v ≡ disk_of u)
      × (v.device.sender.wire ≡ u.device.sender.wire)
unfolding take_turn main_round dispatch receive settle settle_result
notice_unheeded r u m on got type =
    (settle r (receive (some m) u), rw (on, got, type), unfold goes_on in on, refl, refl)
