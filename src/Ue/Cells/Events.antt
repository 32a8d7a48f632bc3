-- ===== src/Ue/Cells/Events.antt =====
-- When `check_events` reports an event, over runs of calls.
use lte.Base.{
  ℕ, ◌+◌, ◌≤◌, ◌≡◌, ◌≢◌, ◌↔◌, ◌≤ℤ◌, ℤ, ◌==◌, Bool, true, false, arith, List, [], ◌∷◌, if◌then◌else◌,
}
use lte.Message.{SEvent, event_code, a1, a2, a3, a4}
use lte.Ue.Cells.{SCells, EventState, initial_events, below, check_events}

not_below_of_le : (a b : ℤ) → b ≤ℤ a → below a b ≡ false
unfolding below
not_below_of_le a b h = ground arith

below_asymm : (a b : ℤ) → below a b ≡ true → below b a ≡ false
unfolding below
below_asymm a b h = ground arith

-- The events that a sequence of calls reports, the static variables carried along.
unfoldable pub run_events : List SCells → EventState → List SEvent
run_events [] e = []
run_events (c ∷ cs) e = let (e', event) = check_events c e in event ∷ run_events cs e'

abbrev pub count_event : SEvent → List SEvent → ℕ
count_event v [] = 0
count_event v (x ∷ xs) = (if event_code x == event_code v then 1 else 0) + count_event v xs

abbrev pub All : (SCells → Type 0) → List SCells → Type 0
All P [] = Unit
All P (c ∷ cs) = P c × All P cs

abbrev pub flag : Bool → ℕ
flag b = if b then 1 else 0

abbrev pub NotWeaker : SCells → Type 0
NotWeaker c = c.serving.rsrp ≤ℤ c.neighbour.rsrp

a3_step :
    (c : SCells) (e : EventState)
    → NotWeaker c
    → (if event_code (check_events c e).1 == 2 then 1 else 0) + flag e.a3_checked
      ≤ flag (check_events c e).0.a3_checked
unfolding check_events
a3_step c e h = ground (arith, not_below_of_le c.neighbour.rsrp c.serving.rsrp h)

-- While the neighbour cell is never weaker than the serving cell, any number of calls reports
-- A3 at most once, and not at all if it was reported before.
pub a3_once :
    (cs : List SCells) (e : EventState)
    → All NotWeaker cs
    → count_event a3 (run_events cs e) + flag e.a3_checked ≤ 1
unfolding run_events
a3_once [] e h = ground arith
a3_once (c ∷ cs) e h = omega (arith, a3_step c e h.0, a3_once cs (check_events c e).0 h.1)

abbrev pub NotBelow : SCells → Type 0
NotBelow c = c.neighbour.threshold2 ≤ℤ c.neighbour.rsrp

a4_step :
    (c : SCells) (e : EventState)
    → NotBelow c
    → (if event_code (check_events c e).1 == 3 then 1 else 0) + flag e.a4_checked
      ≤ flag (check_events c e).0.a4_checked
unfolding check_events
a4_step c e h = ground (arith, not_below_of_le c.neighbour.rsrp c.neighbour.threshold2 h)

-- While the neighbour cell is never below its second threshold, any number of calls reports A4
-- at most once, and not at all if it was reported before.
a4_once :
    (cs : List SCells) (e : EventState)
    → All NotBelow cs
    → count_event a4 (run_events cs e) + flag e.a4_checked ≤ 1
unfolding run_events
a4_once [] e h = ground arith
a4_once (c ∷ cs) e h = omega (arith, a4_step c e h.0, a4_once cs (check_events c e).0 h.1)

-- The calls that find the serving cell below its first threshold, or above its second.
abbrev pub weak_calls : List SCells → ℕ
weak_calls [] = 0
weak_calls (c ∷ cs) = flag (below c.serving.rsrp c.serving.threshold1) + weak_calls cs

abbrev pub strong_calls : List SCells → ℕ
strong_calls [] = 0
strong_calls (c ∷ cs) = flag (below c.serving.threshold2 c.serving.rsrp) + strong_calls cs

a1_step :
    (c : SCells) (e : EventState)
    → (if event_code (check_events c e).1 == 0 then 1 else 0)
        + flag ((check_events c e).0.event_change == 1)
      ≤ flag (e.event_change == 1) + flag (below c.serving.rsrp c.serving.threshold1)
unfolding check_events
a1_step c e = ground arith

a1_paid :
    (cs : List SCells) (e : EventState)
    → count_event a1 (run_events cs e) ≤ flag (e.event_change == 1) + weak_calls cs
unfolding run_events
a1_paid [] e = ground arith
a1_paid (c ∷ cs) e = omega (arith, a1_step c e, a1_paid cs (check_events c e).0)

a2_step :
    (c : SCells) (e : EventState)
    → (if event_code (check_events c e).1 == 1 then 1 else 0)
        + flag ((check_events c e).0.event_change == 2)
      ≤ flag (e.event_change == 2) + flag (below c.serving.threshold2 c.serving.rsrp)
unfolding check_events
a2_step c e = ground arith

a2_paid :
    (cs : List SCells) (e : EventState)
    → count_event a2 (run_events cs e) ≤ flag (e.event_change == 2) + strong_calls cs
unfolding run_events
a2_paid [] e = ground arith
a2_paid (c ∷ cs) e = omega (arith, a2_step c e, a2_paid cs (check_events c e).0)

-- From the start of the program, A1 is reported at most as often as a call has found the serving
-- cell below its first threshold, and A2 as often as one has found it above its second: the
-- events report a return, and do not repeat.
a1_a2_need_crossing :
    (cs : List SCells)
    → (count_event a1 (run_events cs initial_events) ≤ weak_calls cs)
      × (count_event a2 (run_events cs initial_events) ≤ strong_calls cs)
a1_a2_need_crossing cs =
    (omega (arith, a1_paid cs initial_events), omega (arith, a2_paid cs initial_events))

-- The event of one call, with the static variables as the earlier calls left them: A1 is reported
-- exactly when it is armed and the serving cell is above the first threshold; A2 exactly when it
-- is armed and the cell is below the second.
pub a1_a2_iff :
    (c : SCells) (e : EventState)
    → (((check_events c e).1 ≡ a1)
        ↔ ((e.event_change ≡ 1) × (below c.serving.threshold1 c.serving.rsrp ≡ true)))
      × (((check_events c e).1 ≡ a2)
          ↔ ((e.event_change ≡ 2) × (below c.serving.rsrp c.serving.threshold2 ≡ true)))
unfolding check_events
a1_a2_iff c e = ground (
  arith,
  below_asymm c.serving.rsrp c.serving.threshold1,
  below_asymm c.serving.threshold2 c.serving.rsrp,
)

a3_resets :
    (c : SCells) (e : EventState)
    → (check_events c e).1 ≡ a3
    → (check_events c e).0.event_change ≡ 5
unfolding check_events
a3_resets c e event = ground arith

-- An A3 that is reported while an A1 is armed disarms it: the next call does not report A1,
-- however strong the serving cell has become.
a3_drops_a1 :
    (c next : SCells) (e : EventState)
    → e.event_change ≡ 1
    → (check_events c e).1 ≡ a3
    → (check_events next (check_events c e).0).1 ≢ a1
a3_drops_a1 c next e armed event again =
    let reset = a3_resets c e event in
    let state = ((a1_a2_iff next (check_events c e).0).0.0 again).0 in omega arith
