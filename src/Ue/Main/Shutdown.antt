-- ===== src/Ue/Main/Shutdown.antt =====
-- How the client's loops end.
use lte.Base.{ℕ, ◌≡◌, ◌≢◌, Bool, true, arith, some, Option-cases, inl, inr, List, [], ◌∷◌, ◌++◌}
use lte.Ue.Sender.{set_type}
use lte.Ue.Battery.{Device, check_battery_status, update_battery}
use lte.Ue.Handle.{send_ue_off_signal}
use lte.Ue.Main.{
  Client, Round, Turn, main_turn, battery_turn, interrupt, main_round, goes_on, take_turn, run,
  finish,
}

abbrev pub message_type_of : Client → ℕ
message_type_of c = c.device.sender.message.message_type

-- A round of `main` never touches `running` or `received`, and ends with the type -1.
pub main_round-keeps :
    (r : Round) (c : Client) {c' : Client}
    → main_round r c ≡ some c'
    → (c'.running ≡ c.running) × (c'.received ≡ c.received) × (message_type_of c' ≡ 0xffff_ffff)
unfolding main_round
main_round-keeps r c e = ground arith

-- A round of the battery thread leaves the type of `message`, or sets one of its own two.
update_battery-type :
    (written : Bool) (now later : ℕ) (d : Device)
    → d.sender.message.message_type ≢ 10
    → (update_battery written now later d).0.sender.message.message_type ≢ 10
unfolding update_battery check_battery_status
update_battery-type written now later d h = ground arith

abbrev pub IsInterrupt : Turn → Type 0
IsInterrupt (main_turn r) = ⊥
IsInterrupt (battery_turn written now later) = ⊥
IsInterrupt interrupt = Unit

abbrev pub NoInterrupt : List Turn → Type 0
NoInterrupt [] = Unit
NoInterrupt (t ∷ ts) = (¬ (IsInterrupt t)) × NoInterrupt ts

pub take_turn-keeps :
    (t : Turn) (c : Client) {c' : Client}
    → ¬ (IsInterrupt t)
    → take_turn t c ≡ some c'
    → (c'.running ≡ c.running) × (c'.received ≡ c.received)
unfolding take_turn
take_turn-keeps (main_turn r) c {c' = d} h e = ground (arith, main_round-keeps r c {c' = d})
take_turn-keeps (battery_turn written now later) c h e = ground arith
take_turn-keeps interrupt c h e = absurd (h tt)

-- Whatever messages arrive, an `enb_off` among them, the loops go on until SIGINT, as long as no
-- undefined behaviour is met: their condition looks at `received`, which no round writes, while
-- the messages go to `message`.
pub run-goes_on :
    (ts : List Turn) (c : Client) {c' : Client}
    → NoInterrupt ts
    → goes_on c ≡ true
    → run ts c ≡ some c'
    → goes_on c' ≡ true
unfolding run
run-goes_on [] c h g e = ground arith
run-goes_on (t ∷ ts) c h g e = elim (Option-cases (take_turn t c)) [
  | inl fault ↦ cc
  | inr (d, step) ↦
      let (same, kept) = take_turn-keeps t c h.0 step in
      run-goes_on ts d h.1 (unfold goes_on in ground arith) (rw step at e)
]

take_turn-type :
    (t : Turn) (c : Client) {c' : Client}
    → message_type_of c ≢ 10
    → take_turn t c ≡ some c'
    → message_type_of c' ≢ 10
unfolding take_turn
take_turn-type (main_turn r) c {c' = d} h e = ground (arith, main_round-keeps r c {c' = d})
take_turn-type (battery_turn written now later) c h e =
    ground (arith, update_battery-type written now later c.device h)
take_turn-type interrupt c h e = ground arith

pub run-type :
    (ts : List Turn) (c : Client) {c' : Client}
    → message_type_of c ≢ 10
    → run ts c ≡ some c'
    → message_type_of c' ≢ 10
unfolding run
run-type [] c h e = ground arith
run-type (t ∷ ts) c h e = elim (Option-cases (take_turn t c)) [
  | inl fault ↦ cc
  | inr (d, step) ↦ run-type ts d (take_turn-type t c h step) (rw step at e)
]

-- However the turns of the two threads fall, the client ends by sending `ue_off` once, also
-- after an `enb_off`: its test for `enb_off` finds the type -1 or that of a battery notice.
pub finish_sends_ue_off :
    (ts : List Turn) (c : Client) {c' : Client}
    → message_type_of c ≢ 10
    → run ts c ≡ some c'
    → (finish true c').wire ≡ c'.device.sender.wire ++ (set_type 9 c'.device.sender).message ∷ []
unfolding finish send_ue_off_signal
finish_sends_ue_off ts c h e = ground (arith, run-type ts c h e)
