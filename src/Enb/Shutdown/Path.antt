-- ===== src/Enb/Shutdown/Path.antt =====
-- The steps by which a SIGINT of the eNodeB is handled: those of `clean` in its main thread, and
-- those of the ping thread, for which it waits.
use lte.Base.{ℕ, ◌≡◌, ℤ}
use lte.Message.{SMessage}
use lte.Enb.ClientObject.{ClientMap, Format, Entry}
use lte.Enb.Shutdown.{
  State, Step, handles_freed, signals, joins, ping_tests, pings, drops, measures,
}

module _ (h : ClientMap) (f : Format) (garbage : Entry → ℤ) where
  abbrev pub IsShutdown : {s t : State h} → Step h f garbage s t → Type 0
  IsShutdown (signals q o p w e) = Unit
  IsShutdown (joins q o p w e) = Unit
  IsShutdown (ping_tests q p w e) = Unit
  IsShutdown (pings q clock p w e) = Unit
  IsShutdown (drops q clock visited p w entries e) = Unit
  IsShutdown _ = ⊥

  -- A step of the measurement thread's iteration over the clients.
  abbrev pub IsMeasuring : {s t : State h} → Step h f garbage s t → Type 0
  IsMeasuring (measures q p w e) = Unit
  IsMeasuring _ = ⊥

  -- The handling of this message, after `clean`.
  abbrev pub IsHandling : ℕ → SMessage → {s t : State h} → Step h f garbage s t → Type 0
  IsHandling socket m (handles_freed q d n p w e) = (d ≡ socket) × (n ≡ m)
  IsHandling socket m _ = ⊥

  -- Steps of the shutdown, or none, lead from `s` to another state.
  pub data Shuts (s : State h) : State h → Type 0 where
    here : Shuts s s
    next : {t u : State h} → Shuts s t → (step : Step h f garbage t u) → IsShutdown step → Shuts s u
