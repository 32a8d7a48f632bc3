-- ===== src/Ue/Main/Loops/Closing.antt =====
-- When the loops end, and what they have done to the socket then.
use lte.Base.{
  ℕ, ◌+◌, ◌≡◌, ◌⊎◌, refl, sym, ◌∙◌, ap, arith, Bool, true, false, ◌||◌, Bool-cases, if◌then◌else◌,
  some, inl, inr, List, [], ◌∷◌, ◌++◌, Option-cases,
}
use mathlib.Core.Bool.{or-false, or-true, or_assoc}
use lte.Ue.Sender.{Sender}
use lte.Message.{SMessage}
use lte.Ue.Handle.{check_for_shutdown, send_ue_off_signal}
use lte.Ue.Main.{Client, Turn, main_turn, battery_turn, interrupt, finish}
use mathlib.Core.Path.{subst}
use lte.Ue.Rrc.{send_rrc_connection_request, receive_rrc_setup, send_rrc_setup_complete}
use lte.Ue.Main.Shutdown.{NoInterrupt, message_type_of}
use lte.Ue.Main.Connection.Established.{IfEstablished, connect_client-established}
use lte.Ue.Main.Connection.{Start, Handshake, established, request_setup, connect_client}
use lte.Ue.Main.Loops.{
  Loops, start_loops, test_loop, act_main, act_battery, act, act_result, run_loops,
}

abbrev pub is_main : Turn → Bool
is_main (main_turn r) = true
is_main _ = false

abbrev pub is_battery : Turn → Bool
is_battery (battery_turn written now later) = true
is_battery _ = false

-- Whether a turn of a kind is among the turns.
abbrev pub acts : (Turn → Bool) → List Turn → Bool
acts p [] = false
acts p (t ∷ ts) = p t || acts p ts

-- Loops whose condition is false, of which `m` and `b` say whether they have found that, by a
-- test that closes the socket `k` times, after `n` closes.
module _ (c : Client) (n k : ℕ) where
  abbrev Quiet : List Turn → Type 0
  Quiet ts = (c.running ≡ false) ⊎ NoInterrupt ts

  first : (t : Turn) (ts : List Turn) → Quiet (t ∷ ts) → Quiet (t ∷ [])
  first t ts (inl off) = inl off
  first t ts (inr h) = inr (h.0, tt)

  rest : (t : Turn) (ts : List Turn) → Quiet (t ∷ ts) → Quiet ts
  rest t ts (inl off) = inl off
  rest t ts (inr h) = inr h.1

  ending : Bool → Bool → Loops
  ending m b = record {
    client = c;
    closes = n + (if m then k else 0) + (if b then k else 0);
    main_done = m;
    battery_done = b;
  }

  -- A turn that finds the condition false ends its own loop, and no other.
  act-ending :
      (t : Turn) (m b : Bool)
      → ((i : ℕ) → test_loop c i ≡ (false, i + k))
      → Quiet (t ∷ [])
      → act t (ending m b) ≡ some (ending (m || is_main t) (b || is_battery t))
  unfolding act act_main act_battery ending
  act-ending (main_turn r) true true test h = refl
  act-ending (main_turn r) true false test h = refl
  act-ending (main_turn r) false true test h = rw test (ground arith)
  act-ending (main_turn r) false false test h = rw test (ground arith)
  act-ending (battery_turn written now later) true true test h = refl
  act-ending (battery_turn written now later) false true test h = refl
  act-ending (battery_turn written now later) true false test h = rw test (ground arith)
  act-ending (battery_turn written now later) false false test h = rw test (ground arith)
  act-ending interrupt m b test (inl off) =
      rw (or-false m, or-false b)
        (ap (λ x. some (record (ending m b) { client = record c { running = x } })) (sym off))
  act-ending interrupt m b test (inr h) = absurd (h.0 tt)

  run_loops-ending :
      (ts : List Turn) (m b : Bool)
      → ((i : ℕ) → test_loop c i ≡ (false, i + k))
      → Quiet ts
      → run_loops ts (ending m b) ≡ some (ending (m || acts is_main ts) (b || acts is_battery ts))
  unfolding run_loops act_result
  run_loops-ending [] m b test h = rw (or-false m, or-false b)
  run_loops-ending (t ∷ ts) m b test h = rw (act-ending t m b test (first t ts h)) (
      run_loops-ending ts (m || is_main t) (b || is_battery t) test (rest t ts h)
      ∙ rw (
        or_assoc m (is_main t) (acts is_main ts),
        or_assoc b (is_battery t) (acts is_battery ts),
      ))

-- A test that does not close the socket leaves the number of closes.
unclosed :
    (c : Client) (n : ℕ) (m b : Bool)
    → record { client = c; closes = n; main_done = m; battery_done = b } ≡ ending c n 0 m b
unfolding ending
unclosed c n true true = ground arith
unclosed c n true false = ground arith
unclosed c n false true = ground arith
unclosed c n false false = ground arith

run_loops-append :
    (ts us : List Turn) (l : Loops)
    → run_loops (ts ++ us) l ≡ act_result (run_loops us) (run_loops ts l)
unfolding run_loops act_result
run_loops-append [] us l = refl
run_loops-append (t ∷ ts) us l = elim (Option-cases (act t l)) [
  | inl fault ↦ rw fault
  | inr (d, step) ↦ rw step (run_loops-append ts us d)
]

-- A SIGINT ends both loops wherever they are: once each of the two threads has had a turn after
-- it, both are done, and the SIGINT has made no thread close the socket or change the client
-- otherwise.
pub interrupt_ends :
    (c : Client) (ts us : List Turn) (l : Loops)
    → run_loops ts (start_loops c) ≡ some l
    → acts is_main us ≡ true
    → acts is_battery us ≡ true
    → run_loops (ts ++ interrupt ∷ us) (start_loops c)
      ≡ some (record {
        client = record l.client { running = false };
        closes = l.closes;
        main_done = true;
        battery_done = true;
      })
interrupt_ends c ts us l e main battery =
    let c' : Client = record l.client { running = false } in
    rw (run_loops-append ts (interrupt ∷ us) (start_loops c), e)
      (unfold act act_result run_loops in
        ap (run_loops us) (unclosed c' l.closes l.main_done l.battery_done)
        ∙ run_loops-ending c' l.closes 0 us l.main_done l.battery_done
            (λ i. unfold test_loop in ground arith) (inl refl)
        ∙ rw (main, battery, or-true l.main_done, or-true l.battery_done)
            (ap some (sym (unclosed c' l.closes true true))))

-- A client that `main` reaches its loops with, after the eNodeB's shutdown.
record IsShut (c : Client) : Type 0 where
  running : c.running ≡ true
  received : c.received.message_type ≡ 10
  type : message_type_of c ≡ 2

keeps_received :
    (written : Bool) (s : Sender)
    → s.message.message_type ≡ 10
    → (send_rrc_setup_complete written s).0 ≡ s
unfolding send_rrc_setup_complete
keeps_received written s type = simp type

request_setup-IsShut :
    (k : Start) (m : SMessage) (x : Handshake)
    → k.setup ≡ some m
    → m.message_type ≡ 10
    → IfEstablished IsShut (request_setup k x)
unfolding request_setup send_rrc_connection_request receive_rrc_setup
request_setup-IsShut k m x setup type = elim (Bool-cases k.request_written) [
  | inl written ↦ rw written (record {
    running = refl;
    received = rw setup (
        ap (λ (s : Sender). s.message.message_type) (keeps_received k.complete_written _ type)
        ∙ type);
    type = refl;
  })
  | inr lost ↦ rw lost tt
]

-- If the eNodeB answers the RRC request with its shutdown, then both loops end at their first
-- test, and each of the two tests closes the socket: it is closed twice, no round is taken, and
-- after that `main` goes on to write ue_off to it.
pub enb_off_closes_twice :
    (k : Start) (c : Client) (m : SMessage) (ts : List Turn) (written : Bool)
    → connect_client k ≡ established c
    → k.setup ≡ some m
    → m.message_type ≡ 10
    → NoInterrupt ts
    → acts is_main ts ≡ true
    → acts is_battery ts ≡ true
    → (run_loops ts (start_loops c)
        ≡ some (record { client = c; closes = 2; main_done = true; battery_done = true }))
      × (finish written c ≡ (send_ue_off_signal written c.device.sender).0)
enb_off_closes_twice k c m ts written conn setup type none_yet main battery =
    let shut : IsShut c = subst (IfEstablished IsShut) conn (
      connect_client-established IsShut k (λ sent. Unit)
        (λ x _. request_setup-IsShut k m x setup type) tt) in
    let found : check_for_shutdown c.received ≡ true =
      unfold check_for_shutdown in simp (shut.received) in
    (
      unfold ending in
          run_loops-ending c 0 1 ts false false
            (λ i. unfold test_loop in simp (shut.running, found)) (inr none_yet)
          ∙ rw (main, battery),
      unfold finish in simp (shut.type),
    )
