-- ===== src/Ue/Cells.antt =====
-- user_equipment.c: the simulated signal of the two cells, and the events A1 to A4.
--
-- `rsrp`, the thresholds and `signal_course` are `int8_t`. `update_rsrps` is given the results of
-- its two calls of `time`. The static variables of `check_events` are a state of their own.
pub mod Bounds
pub mod Events
use lte.Base.{
  ℕ, ◌+◌, ◌%◌, ℤ, pos, ◌+ℤ◌, ◌-ℤ◌, ltb_ℤ, leb_ℤ, wrap_int8, ltb, ◌==◌, Bool, true, false, not, ◌&&◌,
  ◌||◌, if◌then◌else◌,
}
use lte.Message.{SEvent, a1, a2, a3, a4, def}

-- `thresholds[0]` and `thresholds[1]` are `threshold1` and `threshold2`.
pub record SCellSignal : Type 0 where
  pub rsrp : ℤ
  pub threshold1 : ℤ
  pub threshold2 : ℤ
  pub signal_course : ℤ

-- `cells_signals[0]` and `cells_signals[1]` are `serving` and `neighbour`.
pub record SCells : Type 0 where
  pub serving : SCellSignal
  pub neighbour : SCellSignal
  pub starting_time : ℕ
  pub current_event : SEvent

abbrev pub max_rsrp : ℤ
max_rsrp = pos 97

initialize_cell : ℕ → SCellSignal
initialize_cell rand = record {
  rsrp = pos (rand % 97);
  threshold1 = pos 19;
  threshold2 = pos 77;
  signal_course = pos 5;
}

-- `rand0` and `rand1` are what `rand` returns, which is never negative.
unfoldable pub initialize_cells : ℕ → ℕ → ℕ → SCells
unfolding initialize_cell
initialize_cells rand0 rand1 now = record {
  serving = initialize_cell rand0;
  neighbour = initialize_cell rand1;
  starting_time = now;
  current_event = def;
}

-- The three statements on `rsrp` in the loop of `update_rsrps`.
move : ℤ → ℤ → ℤ
move rsrp course =
    let moved = wrap_int8 (rsrp +ℤ course) in
    let capped = if ltb_ℤ max_rsrp moved then max_rsrp else moved in
    if ltb_ℤ capped (pos 0) then pos 0 else capped

-- One round of that loop; the negation is the multiplication by -1.
unfoldable pub update_rsrp : SCellSignal → SCellSignal
unfolding move
update_rsrp c =
    let rsrp = move c.rsrp c.signal_course in
    record c {
      rsrp = rsrp;
      signal_course =
          if leb_ℤ max_rsrp rsrp || leb_ℤ rsrp (pos 0)
          then wrap_int8 (pos 0 -ℤ c.signal_course)
          else c.signal_course;
    }

unfoldable pub update_rsrps : ℕ → ℕ → SCells → SCells
update_rsrps now later cells =
    if ltb (cells.starting_time + 1) now
    then record cells {
      serving = update_rsrp cells.serving;
      neighbour = update_rsrp cells.neighbour;
      starting_time = later;
    }
    else cells

-- The static variables of `check_events`: `event_change` is 5 when idle, 1 after the serving cell
-- was weak and 2 after it was strong.
pub record EventState : Type 0 where
  pub event_change : ℕ
  pub a3_checked : Bool
  pub a4_checked : Bool

abbrev pub initial_events : EventState
initial_events = record { event_change = 5; a3_checked = false; a4_checked = false }

-- `a < b` between two `int8_t` values.
unfoldable pub below : ℤ → ℤ → Bool
below a b = ltb_ℤ a b

-- The two assignments at the head of `check_events`.
arm : SCellSignal → EventState → EventState
arm serving e =
    let weak =
      if below serving.rsrp serving.threshold1 && 5 == e.event_change
      then record e { event_change = 1 }
      else e in
    if below serving.threshold2 serving.rsrp && 5 == weak.event_change
    then record weak { event_change = 2 }
    else weak

-- Event A4, which is looked at last.
check_a4 : SCellSignal → EventState → EventState × SEvent
check_a4 neighbour e =
    let e4 =
      if below neighbour.rsrp neighbour.threshold2 then record e { a4_checked = false } else e in
    if below neighbour.threshold2 neighbour.rsrp && not e4.a4_checked
    then (record e4 { event_change = 5; a4_checked = true }, a4)
    else (e4, def)

-- Event A3, and then A4.
check_a3 : SCellSignal → SCellSignal → EventState → EventState × SEvent
check_a3 serving neighbour e =
    let e3 = if below neighbour.rsrp serving.rsrp then record e { a3_checked = false } else e in
    if below serving.rsrp neighbour.rsrp && not e3.a3_checked
    then (record e3 { event_change = 5; a3_checked = true }, a3)
    else check_a4 neighbour e3

-- Each early return leaves the later tests out.
unfoldable pub check_events : SCells → EventState → EventState × SEvent
unfolding arm check_a3 check_a4
check_events cells e =
    let armed = arm cells.serving e in
    if below cells.serving.threshold1 cells.serving.rsrp && 1 == armed.event_change
    then (record armed { event_change = 5 }, a1)
    else if below cells.serving.rsrp cells.serving.threshold2 && 2 == armed.event_change
    then (record armed { event_change = 5 }, a2)
    else check_a3 cells.serving cells.neighbour armed

-- The new cells and the new static state.
unfoldable pub set_current_signal_event : ℕ → ℕ → SCells → EventState → SCells × EventState
set_current_signal_event now later cells e =
    let moved = update_rsrps now later cells in
    let (e', event) = check_events moved e in (record moved { current_event = event }, e')
