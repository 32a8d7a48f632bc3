-- ===== src/Enb/Shutdown/Guarded.antt =====
-- What `clean` guards by its `pthread_join`: the ping thread never comes to the destroyed map.
use lte.Base.{
  ℕ, pos, eqb_ℤ, ◌≡◌, refl, ap, ◌∙◌, ℤ, Bool, true, false, Bool-cases, inl, inr, Option, none, some,
  List, [], ◌∷◌,
}
use mathlib.Core.Bool.{and-true, and-false}
use lte.Message.{SMessage, decode_type}
use lte.Enb.ClientObject.{ClientMap, Format, Entry}
use lte.Enb.Server.{
  announce, Server, Outcome, running, exited, crashed, hashmap_iter, server_destroy,
  close_clients_sockets, close_client_socket, close_socket, error,
}
use lte.Enb.Packet.{parse_packet}
use lte.Enb.Ping.{drop_clients, should_kick, handle_client_inactivity}
use lte.Enb.Ping.Rounds.{ping_clients_lem, broadcasts_lem}
use lte.Enb.Start.{receive_one}
use lte.Enb.Transfer.Clients.{Ending, returned, exit_success, exit_failure, out_of_fuel}
use lte.Enb.Threads.{ended, after_thread}
use lte.Enb.Threads.Orderly.{transfer_clients-ended}
use lte.Enb.Shutdown.{
  Loop, testing, dropping, finished, Work, serving, Process, State, process, test_done, uses_map,
  on_map, on_error, after_event, after_sample, after_signal, handle_freed, Step, accepts, reads,
  read_fails, leaves, wait_fails, handles, handles_freed, signals, joins, returns, ping_tests,
  pings, drops, measure_tests, measures, transfer_tests, transfers, Reach, start, later,
}

abbrev IsCleaning : Work → Type 0
IsCleaning (serving o) = ⊥
IsCleaning _ = Unit

-- The map is destroyed after the ping thread has ended, and the threads are told before.
pub record IsGuarded {h : ClientMap} (q : Process h) : Type 0 where
  pub ended_first : q.freed ≡ true → q.ping ≡ finished
  pub told : IsCleaning q.work → q.server.threads_done ≡ true
  pub told_first : q.freed ≡ true → q.server.threads_done ≡ true

-- No null pointer is claimed to be avoided here: that is a matter of the clients that are dropped.
abbrev pub Guards : {h : ClientMap} → State h → Type 0
Guards (process q) = IsGuarded q
Guards _ = Unit

module _ {h : ClientMap} where
  on_map-Guards : (q : Process h) (s : State h) → (q.freed ≡ false → Guards s) → Guards (on_map q s)
  on_map-Guards q s all = elim (Bool-cases q.freed) [
    | inl freed ↦ rw freed tt
    | inr kept ↦ rw kept (all kept)
  ]

  -- A step of the event loop while the map is there.
  after_event-Guards : (q : Process h) (o : Outcome h) → q.freed ≡ false → Guards (after_event q o)
  after_event-Guards q (running x) kept = record {
    ended_first = λ e. cc;
    told = λ e. absurd e;
    told_first = λ e. cc;
  }
  after_event-Guards q (exited x) kept = tt
  after_event-Guards q crashed kept = tt

  on_error-Guards :
      (i : Bool) (q : Process h) (o : Outcome h)
      → (i ≡ true → o ≡ exited q.server)
      → Guards (on_error i q (after_event q o))
  on_error-Guards true q o ends = rw (and-false q.freed, ends refl) tt
  on_error-Guards false q o ends =
      rw (and-true q.freed) (on_map-Guards q _ (after_event-Guards q o))

  handle_freed-Guards : (q : Process h) (m : SMessage) → IsGuarded q → Guards (handle_freed q m)
  handle_freed-Guards q m old = elim (Bool-cases (uses_map (decode_type m.message_type))) [
    | inl uses ↦ rw uses tt
    | inr idle ↦ rw idle (record {
      ended_first = old.ended_first;
      told = λ e. absurd e;
      told_first = old.told_first;
    })
  ]

  after_signal-Guards :
      (q : Process h) (o : Option (ℕ × SMessage)) → IsGuarded q → Guards (after_signal q o)
  after_signal-Guards q none old = tt
  after_signal-Guards q (some p) old = record {
    ended_first = old.ended_first;
    told = λ e. absurd e;
    told_first = old.told_first;
  }

  -- A round of a thread that leaves `threads_done` alone.
  round-Guards :
      (q : Process h) (x : Server h) (ping measure : Loop)
      → x.threads_done ≡ q.server.threads_done
      → IsGuarded q
      → Guards (on_map q (process (record q { server = x; ping = ping; measure = measure })))
  round-Guards q x ping measure same old = on_map-Guards q _ (λ kept. record {
    ended_first = λ e. cc;
    told = λ e. same ∙ old.told e;
    told_first = λ e. same ∙ old.told_first e;
  })

  -- The transfer thread, which ends the process.
  transfer-Guards :
      (q : Process h) (e : Ending h) → after_thread none e ≡ ended → Guards (after_sample q e)
  transfer-Guards q (returned x) ends = cc
  transfer-Guards q (exit_success x) ends = tt
  transfer-Guards q (exit_failure x) ends = tt
  transfer-Guards q out_of_fuel ends = cc

module _ (h : ClientMap) (f : Format) where
  pub drop-told :
      (clock : Entry → ℕ) (visited : List Entry) (s : Server h)
      → (drop_clients h f clock visited s).threads_done ≡ s.threads_done
  unfolding drop_clients hashmap_iter handle_client_inactivity close_socket
  drop-told clock [] s = refl
  drop-told clock ((k, c) ∷ es) s = elim (Bool-cases (should_kick (clock (k, c)) c)) [
    | inl silent ↦ rw silent (drop-told clock es _)
    | inr heard ↦ rw heard (drop-told clock es s)
  ]

  -- What closing the sockets leaves alone.
  abbrev Keeps : Server h → Server h → Type 0
  Keeps s t = (t.threads_done ≡ s.threads_done) × (t.sent ≡ s.sent)

  close-Keeps :
      (garbage : Entry → ℤ) (es : List Entry) (s : Server h)
      → Keeps s (hashmap_iter (close_client_socket h f garbage) es s)
  unfolding hashmap_iter close_client_socket close_socket
  close-Keeps garbage [] s = (refl, refl)
  close-Keeps garbage ((k, c) ∷ es) s = elim (Bool-cases (eqb_ℤ (garbage (k, c)) (pos 0))) [
    | inl goes ↦ rw goes (close-Keeps garbage es (close_socket h f (f.atoi k) s))
    | inr stops ↦ rw stops (refl, refl)
  ]

  pub destroy-Keeps : (garbage : Entry → ℤ) (s : Server h) → Keeps s (server_destroy h f garbage s)
  unfolding server_destroy close_clients_sockets close_socket
  destroy-Keeps garbage s = close-Keeps garbage (h.entries s.clients) s

module _ (h : ClientMap) (f : Format) (garbage : Entry → ℤ) where
  Step-Guards : {s t : State h} → Step h f garbage s t → Guards s → Guards t
  unfolding announce
  Step-Guards (accepts q i a p (w, kept) e) old = rw e (after_event-Guards q _ kept)
  Step-Guards (reads q d m p w e) old =
      let held : IsGuarded q = rw p at old in
      rw e (record {
        ended_first = held.ended_first;
        told = λ c. absurd c;
        told_first = held.told_first;
      })
  Step-Guards (read_fails q d now i p w e) old =
      rw e (on_error-Guards i q _ (λ yes. unfold parse_packet error in rw yes))
  Step-Guards (leaves q d now p w e) old = rw e (on_map-Guards q _ (after_event-Guards q _))
  Step-Guards (wait_fails q i p w e) old =
      rw e (on_error-Guards i q _ (λ yes. unfold receive_one error in rw yes))
  Step-Guards (handles q d m now p (w, kept) e) old = rw e (after_event-Guards q _ kept)
  Step-Guards (handles_freed q d m p w e) old =
      let held : IsGuarded q = rw p at old in rw e (handle_freed-Guards q m held)
  Step-Guards (signals q o p w e) old = rw e (
      on_map-Guards q _
        (λ kept. record { ended_first = λ y. cc; told = λ y. refl; told_first = λ y. refl }))
  Step-Guards (joins q o p (w, done) e) old =
      let held : IsGuarded q = rw p at old in
      let told : q.server.threads_done ≡ true = held.told (rw w tt) in
      let kept = (destroy-Keeps h f garbage q.server).0 in
      rw e
        (record { ended_first = λ y. done; told = λ y. kept ∙ told; told_first = λ y. kept ∙ told })
  Step-Guards (returns q o p w e) old =
      let held : IsGuarded q = rw p at old in rw e (after_signal-Guards q o held)
  Step-Guards (ping_tests q p w e) old =
      let held : IsGuarded q = rw p at old in
      rw e (record {
        ended_first = λ y. unfold test_done in simp (held.told_first y);
        told = held.told;
        told_first = held.told_first;
      })
  Step-Guards (pings q clock p w e) old =
      let held : IsGuarded q = rw p at old in
      rw e (
        round-Guards q _ dropping q.measure
          (ap (λ (x : Server h). x.threads_done) (ping_clients_lem h f clock q.server)) held)
  Step-Guards (drops q clock visited p w entries e) old =
      let held : IsGuarded q = rw p at old in
      rw e (round-Guards q _ testing q.measure (drop-told h f clock visited q.server) held)
  Step-Guards (measure_tests q p w e) old =
      let held : IsGuarded q = rw p at old in
      rw e
        (record { ended_first = held.ended_first; told = held.told; told_first = held.told_first })
  Step-Guards (measures q p w e) old =
      let held : IsGuarded q = rw p at old in
      rw e (
        round-Guards q _ q.ping testing
          (ap (λ (x : Server h). x.threads_done) (broadcasts_lem h f q.server).0) held)
  Step-Guards (transfer_tests q p w e) old =
      let held : IsGuarded q = rw p at old in
      rw e
        (record { ended_first = held.ended_first; told = held.told; told_first = held.told_first })
  Step-Guards (transfers q deliver memory p w e) old = rw e (
      on_map-Guards q _ (λ kept. transfer-Guards q _ (
        transfer_clients-ended h f true none deliver memory (h.entries q.server.clients) q.server)))

  -- Whatever the threads do, and whenever a SIGINT comes: once the map is destroyed, the ping
  -- thread is behind its loop, and whenever `clean` has begun, the threads are told to end.
  pub Reach-Guards : {s : State h} → Reach h f garbage s → Guards s
  Reach-Guards (start k x e) = record {
    ended_first = λ e. cc;
    told = λ e. absurd e;
    told_first = λ e. cc;
  }
  Reach-Guards (later r st) = Step-Guards st (Reach-Guards r)
