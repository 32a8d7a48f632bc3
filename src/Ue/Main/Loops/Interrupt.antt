-- ===== src/Ue/Main/Loops/Interrupt.antt =====
-- The two loops as threads, and what a SIGINT does to them.
use lte.Base.{
  ◌≡◌, refl, ap, arith, true, false, Option, none, some, Option-cases, inl, inr, List, [], ◌∷◌,
  ◌++◌,
}
use lte.Ue.Main.{
  Client, Turn, main_turn, battery_turn, interrupt, main_round, goes_on, take_turn, run, run_result,
}
use lte.Ue.Main.Shutdown.{NoInterrupt, take_turn-keeps}
use lte.Ue.Main.Loops.Turns.{act_main-on, act_battery-on, drained}
use lte.Ue.Main.Loops.{Loops, start_loops, with_client, act, act_result, run_loops}
use lte.Ue.Main.Loops.Closing.{is_main, is_battery, acts, interrupt_ends}

-- A turn of a loop whose condition holds is the turn of `run`, and closes and ends nothing.
act-on :
    (t : Turn) (c : Client) {c' : Client}
    → NoInterrupt (t ∷ [])
    → goes_on c ≡ true
    → take_turn t c ≡ some c'
    → act t (start_loops c) ≡ some (start_loops c')
unfolding act take_turn with_client drained
act-on (main_turn r) c {c'} h on e =
    let round : main_round r c ≡ some c' = rw on at e in
    rw (act_main-on r (start_loops c) refl on, round) refl
act-on (battery_turn written now later) c {c'} h on e =
    let same = rw on at e in
    rw (act_battery-on written now later (start_loops c) refl on) (ap loops_of same)
  where
    loops_of : Option Client → Option Loops
    loops_of none = none
    loops_of (some d) = some (start_loops d)
act-on interrupt c h on e = absurd (h.0 tt)

take_turn-on :
    (t : Turn) (c : Client) {c' : Client}
    → NoInterrupt (t ∷ [])
    → goes_on c ≡ true
    → take_turn t c ≡ some c'
    → goes_on c' ≡ true
unfolding goes_on
take_turn-on t c {c'} h on e =
    let (running, received) = take_turn-keeps t c {c' = c'} h.0 e in simp (running, received, on)

run_loops-on :
    (ts : List Turn) (c : Client) {c' : Client}
    → NoInterrupt ts
    → goes_on c ≡ true
    → run ts c ≡ some c'
    → run_loops ts (start_loops c) ≡ some (start_loops c')
unfolding run run_result run_loops act_result
run_loops-on [] c h on e = ground arith
run_loops-on (t ∷ ts) c h on e = elim (Option-cases (take_turn t c)) [
  | inl fault ↦ let lost = rw fault at e in cc
  | inr (d, went) ↦
      rw (act-on t c (h.0, tt) on went)
        (run_loops-on ts d h.1 (take_turn-on t c (h.0, tt) on went) (rw went at e))
]

-- While no SIGINT comes, the two loops as threads do to a client in its loop what its turns do to
-- it, close nothing and do not end. A SIGINT then ends both wherever they are: once each of the two
-- threads has had a turn after it, both are done, the socket has still not been closed, and nothing
-- else of the client has changed.
pub run_loops-interrupt :
    (c c' : Client) (ts us : List Turn)
    → NoInterrupt ts
    → goes_on c ≡ true
    → run ts c ≡ some c'
    → acts is_main us ≡ true
    → acts is_battery us ≡ true
    → (run_loops ts (start_loops c)
        ≡ some (record { client = c'; closes = 0; main_done = false; battery_done = false }))
      × (run_loops (ts ++ interrupt ∷ us) (start_loops c)
          ≡ some (record {
            client = record c' { running = false };
            closes = 0;
            main_done = true;
            battery_done = true;
          }))
run_loops-interrupt c c' ts us h on e main battery =
    let before = run_loops-on ts c h on e in
    (before, interrupt_ends c ts us (start_loops c') before main battery)
