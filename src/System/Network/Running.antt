-- ===== src/System/Network/Running.antt =====
-- A client that stays in its loop, turn by turn.
use lte.Base.{◌≡◌, sym, ap, ◌∙◌, true, some, Option-cases, inl, inr, List, ◌++◌}
use lte.Ue.Main.{Client, Turn, take_turn, goes_on}
use lte.Ue.Main.Shutdown.{IsInterrupt, take_turn-keeps}
use lte.Ue.Main.Saving.{
  FileEvent, Disk, save, and_save, disk_of, disk_result, turn_events, IsQuiet, take_turn-disk,
  take_turn-IsQuiet, save-append,
}
use lte.Ue.Main.Uplink.{AreUplink, take_turn-AreUplink}

-- The client is in its loop.
pub record IsRunning (c : Client) : Type 0 where
  pub goes : goes_on c ≡ true
  pub quiet : IsQuiet c
  pub uplink : AreUplink c.device.sender.wire

-- A turn that leaves `rest` of the events for later.
pub turn-IsRunning :
    (t : Turn) (c : Client) (rest : List FileEvent) {goal : Disk}
    → ¬ (IsInterrupt t)
    → IsRunning c
    → save (turn_events t ++ rest) (disk_of c) ≡ some goal
    → (c' : Client) × (take_turn t c ≡ some c')
      × IsRunning c'
      × (save rest (disk_of c') ≡ some goal)
turn-IsRunning t c rest {goal} live old e =
    let split : and_save (save rest) (disk_result (take_turn t c)) ≡ some goal =
      ap (and_save (save rest)) (take_turn-disk t c live old.goes old.quiet)
      ∙ (sym (save-append (turn_events t) rest (disk_of c)) ∙ e) in
    elim (Option-cases (take_turn t c)) [
      | inl fault ↦ let lost = rw fault at split in cc
      | inr (d, step) ↦
          let (same, kept) = take_turn-keeps t c live step in
          (
            d,
            step,
            record {
              goes = unfold goes_on in rw (same, kept) old.goes;
              quiet = take_turn-IsQuiet t c old.quiet step;
              uplink = take_turn-AreUplink t c old.uplink step;
            },
            rw step at split,
          )
    ]
