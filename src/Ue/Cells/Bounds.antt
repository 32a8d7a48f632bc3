-- ===== src/Ue/Cells/Bounds.antt =====
-- The signal walks between 0 and 97 and turns round at both ends.
use lte.Base.{
  ℕ, zero, suc, ◌+◌, ◌-◌, ◌*◌, ◌≤◌, ◌<◌, ◌≡◌, ◌⊎◌, inl, inr, pos, negsuc, ◌≤ℤ◌, pos_part, arith,
  List, [], ◌∷◌,
}
use lte.Ue.Cells.{
  SCellSignal, SCells, EventState, initialize_cells, update_rsrp, update_rsrps,
  set_current_signal_event,
}

-- A signal between 0 and 97 that moves by five up or down, with the hardcoded thresholds.
pub record IsSignal (c : SCellSignal) : Type 0 where
  pub above : pos 0 ≤ℤ c.rsrp
  pub below : c.rsrp ≤ℤ pos 97
  pub course : (c.signal_course ≡ pos 5) ⊎ (c.signal_course ≡ negsuc 4)
  pub first : c.threshold1 ≡ pos 19
  pub second : c.threshold2 ≡ pos 77

abbrev pub AreSignals : SCells → Type 0
AreSignals cells = IsSignal cells.serving × IsSignal cells.neighbour

pub initialize_cells-AreSignals : (r0 r1 now : ℕ) → AreSignals (initialize_cells r0 r1 now)
unfolding initialize_cells
initialize_cells-AreSignals r0 r1 now = ground arith

pub update_rsrp-IsSignal : (c : SCellSignal) → IsSignal c → IsSignal (update_rsrp c)
unfolding update_rsrp
update_rsrp-IsSignal c h = ground arith

pub set_current_signal_event-AreSignals :
    (now later : ℕ) (cells : SCells) (e : EventState)
    → AreSignals cells
    → AreSignals (set_current_signal_event now later cells e).0
unfolding set_current_signal_event update_rsrps
set_current_signal_event-AreSignals now later cells e h =
    ground (arith, update_rsrp-IsSignal cells.serving, update_rsrp-IsSignal cells.neighbour)

abbrev pub walk : ℕ → SCellSignal → SCellSignal
walk zero c = c
walk (suc n) c = walk n (update_rsrp c)

-- Below 92 a rising signal gains five; from 92 on it is cut at 97 and turns.
rise_step :
    (c : SCellSignal)
    → IsSignal c
    → c.signal_course ≡ pos 5
    → let c' = update_rsrp c in
      ((pos_part c.rsrp < 92) × (c'.rsrp ≡ pos (pos_part c.rsrp + 5)) × (c'.signal_course ≡ pos 5))
      ⊎ ((92 ≤ pos_part c.rsrp) × (c'.rsrp ≡ pos 97) × (c'.signal_course ≡ negsuc 4))
unfolding update_rsrp
rise_step c h up = ground arith

-- A signal that gains five a round and is within `5 * n` of the top reaches 97 after some number
-- of at most `n` rounds, and then turns down.
rising_turns :
    (n : ℕ) (c : SCellSignal)
    → IsSignal c
    → c.signal_course ≡ pos 5
    → 97 ≤ pos_part c.rsrp + 5 * n
    → 0 < n
    → (k : ℕ) × (k ≤ n) × ((walk k c).rsrp ≡ pos 97) × ((walk k c).signal_course ≡ negsuc 4)
rising_turns zero c h up far p = absurd (omega arith)
rising_turns (suc n) c h up far p = elim (rise_step c h up) [
  | inr (near, top, down) ↦ (1, omega arith, top, down)
  | inl (low, more, still) ↦
      let (k, bound, top, down) =
        rising_turns n (update_rsrp c) (update_rsrp-IsSignal c h) still (ground arith)
          (ground arith) in
      (suc k, omega arith, top, down)
]

fall_step :
    (c : SCellSignal)
    → IsSignal c
    → c.signal_course ≡ negsuc 4
    → let c' = update_rsrp c in
      ((5 < pos_part c.rsrp)
        × (c'.rsrp ≡ pos (pos_part c.rsrp - 5))
        × (c'.signal_course ≡ negsuc 4))
      ⊎ ((pos_part c.rsrp ≤ 5) × (c'.rsrp ≡ pos 0) × (c'.signal_course ≡ pos 5))
unfolding update_rsrp
fall_step c h down = ground arith

-- A signal that loses five a round and is at most `5 * n` reaches 0 after some number of at most
-- `n` rounds, and then turns up.
falling_turns :
    (n : ℕ) (c : SCellSignal)
    → IsSignal c
    → c.signal_course ≡ negsuc 4
    → pos_part c.rsrp ≤ 5 * n
    → 0 < n
    → (k : ℕ) × (k ≤ n) × ((walk k c).rsrp ≡ pos 0) × ((walk k c).signal_course ≡ pos 5)
falling_turns zero c h down far p = absurd (omega arith)
falling_turns (suc n) c h down far p = elim (fall_step c h down) [
  | inr (near, bottom, up) ↦ (1, omega arith, bottom, up)
  | inl (high, less, still) ↦
      let (k, bound, bottom, up) =
        falling_turns n (update_rsrp c) (update_rsrp-IsSignal c h) still (ground arith)
          (ground arith) in
      (suc k, omega arith, bottom, up)
]

-- However a signal moves, after some number of at most `n` rounds, where `n` rounds cross the
-- range, it is at the top and turns down, or at the bottom and turns up.
signal_turns :
    (n : ℕ) (c : SCellSignal)
    → IsSignal c
    → 97 ≤ 5 * n
    → (k : ℕ) × (k ≤ n)
      × (((walk k c).rsrp ≡ pos 97) × ((walk k c).signal_course ≡ negsuc 4)
          ⊎ ((walk k c).rsrp ≡ pos 0) × ((walk k c).signal_course ≡ pos 5))
signal_turns n c h wide = elim h.course [
  | inl up ↦
      let (k, soon, top, down) = rising_turns n c h up (omega arith) (omega arith) in
      (k, soon, inl (top, down))
  | inr down ↦
      let (k, soon, bottom, up) =
        falling_turns n c h down (ground (arith, h.below)) (omega arith) in
      (k, soon, inr (bottom, up))
]

-- The signal part of the main loop, with the two clock readings of each round.
unfoldable pub run_signals : List (ℕ × ℕ) → SCells → EventState → SCells × EventState
run_signals [] cells e = (cells, e)
run_signals ((now, later) ∷ rest) cells e =
    let (cells', e') = set_current_signal_event now later cells e in run_signals rest cells' e'

run_signals-keeps :
    (rounds : List (ℕ × ℕ)) (cells : SCells) (e : EventState)
    → AreSignals cells
    → AreSignals (run_signals rounds cells e).0
unfolding run_signals
run_signals-keeps [] cells e h = h
run_signals-keeps ((now, later) ∷ rest) cells e h =
    let next = set_current_signal_event now later cells e in
    run_signals-keeps rest next.0 next.1 (set_current_signal_event-AreSignals now later cells e h)

-- After `initialize_cells` and any number of calls of `set_current_signal_event`, whatever `rand`
-- and the clock return, both signals are from 0 to 97, move by five up or down, and keep their
-- thresholds.
pub run_signals-AreSignals :
    (r0 r1 start : ℕ) (rounds : List (ℕ × ℕ)) (e : EventState)
    → AreSignals (run_signals rounds (initialize_cells r0 r1 start) e).0
run_signals-AreSignals r0 r1 start rounds e =
    run_signals-keeps rounds (initialize_cells r0 r1 start) e
      (initialize_cells-AreSignals r0 r1 start)
