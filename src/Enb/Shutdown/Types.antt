-- ===== src/Enb/Shutdown/Types.antt =====
-- The types of the messages that the eNodeB sends, in all that its threads do.
use lte.Base.{
  ℕ, ◌≡◌, refl, ℤ, Bool, true, false, if◌then◌else◌, Bool-cases, inl, inr, Option, none, some, [],
  arith,
}
use lte.Message.{SMessage, decode_type}
use lte.Enb.ClientObject.{ClientMap, Format, Entry}
use lte.Enb.Server.{
  announce, Server, typed_message, Outcome, running, exited, crashed, Accepted, clean, error,
  close_socket, accept_client, accept_descriptor,
}
use lte.Enb.Packet.{parse_packet}
use lte.Enb.Ping.Rounds.{overdue, ping_clients_lem, broadcasts_lem}
use lte.Enb.Ping.Inactive.{drop_clients-sends}
use lte.Enb.Start.{Startup, init_server, bind_and_listen, server_init, early_error, receive_one}
use lte.Enb.Transfer.Clients.{Ending, returned, exit_success, exit_failure, out_of_fuel}
use lte.Enb.Downlink.{
  AreDownlink, AreDownlink-append, messages-AreDownlink, OutcomeDown, EndingDown, dispatch-Down,
  transfer_clients-Down,
}
use lte.Enb.Shutdown.Guarded.{destroy-Keeps}
use lte.Enb.Shutdown.{
  Process, State, process, gone, null_pointer, use_after_free, uses_map, after_event, after_sample,
  after_signal, Step, accepts, reads, read_fails, leaves, wait_fails, handles, handles_freed,
  signals, joins, returns, ping_tests, pings, drops, measure_tests, measures, transfer_tests,
  transfers, Reach, start, later,
}

module _ (h : ClientMap) (f : Format) (garbage : Entry → ℤ) where
  -- `clean` sends the notices of the shutdown.
  announce-Down : (s : Server h) → AreDownlink s.sent → AreDownlink (announce h f s).sent
  unfolding announce
  announce-Down s all = rw (broadcasts_lem h f s).1 (
      AreDownlink-append s.sent _ all
        (messages-AreDownlink (λ e. true) (typed_message 10) (h.entries s.clients) refl))

  error-Down :
      (interrupted : Bool) (s : Server h)
      → AreDownlink s.sent
      → OutcomeDown h f (error h f interrupted garbage s)
  unfolding error clean announce
  error-Down true s all = all
  error-Down false s all = rw (destroy-Keeps h f garbage _).1 (announce-Down s all)

  accept_client-Down :
      (interrupted : Bool) (a : Accepted) (s : Server h)
      → AreDownlink s.sent
      → OutcomeDown h f (accept_client h f interrupted garbage a s)
  unfolding accept_client accept_descriptor
  accept_client-Down interrupted a s all = go a.descriptor
    where
      go : (o : Option ℕ) → OutcomeDown h f (accept_descriptor h f interrupted garbage a o s)
      go none = error-Down interrupted s all
      go (some fd) = elim (Bool-cases a.registered) [
        | inl registered ↦ rw registered all
        | inr refused ↦ rw refused (error-Down interrupted s all)
      ]

  -- What has been sent by a state of the process.
  abbrev pub SendsDownlink : State h → Type 0
  SendsDownlink (process q) = AreDownlink q.server.sent
  SendsDownlink (gone x) = AreDownlink x.sent
  SendsDownlink null_pointer = Unit
  SendsDownlink use_after_free = Unit

  event-Down : (q : Process h) (o : Outcome h) → OutcomeDown h f o → SendsDownlink (after_event q o)
  event-Down q (running x) down = down
  event-Down q (exited x) down = down
  event-Down q crashed down = tt

  transfer-Down :
      (q : Process h) (e : Ending h)
      → AreDownlink q.server.sent
      → EndingDown h e
      → SendsDownlink (after_sample q e)
  transfer-Down q (returned x) all down = down
  transfer-Down q (exit_success x) all down = down
  transfer-Down q (exit_failure x) all down = down
  transfer-Down q out_of_fuel all down = all

  signal-Down :
      (q : Process h) (o : Option (ℕ × SMessage))
      → AreDownlink q.server.sent
      → SendsDownlink (after_signal q o)
  signal-Down q none all = all
  signal-Down q (some p) all = all

  unless-Down :
      (freed : Bool) (s : State h)
      → SendsDownlink s
      → SendsDownlink (if freed then use_after_free else s)
  unless-Down true s down = tt
  unless-Down false s down = down

  Step-SendsDownlink : {s t : State h} → Step h f garbage s t → SendsDownlink s → SendsDownlink t
  unfolding parse_packet receive_one close_socket
  Step-SendsDownlink (accepts q i a p w e) old =
      rw e (event-Down q _ (accept_client-Down i a q.server (rw p at old)))
  Step-SendsDownlink (reads q d m p w e) old = rw e (rw p at old)
  Step-SendsDownlink (read_fails q d now i p w e) old =
      rw e (unless-Down _ _ (event-Down q _ (error-Down i q.server (rw p at old))))
  Step-SendsDownlink (leaves q d now p w e) old = rw e (unless-Down q.freed _ (rw p at old))
  Step-SendsDownlink (wait_fails q i p w e) old =
      rw e (unless-Down _ _ (event-Down q _ (error-Down i q.server (rw p at old))))
  Step-SendsDownlink (handles q d m now p w e) old =
      rw e (event-Down q _ (dispatch-Down h f _ d m now q.server (rw p at old)))
  Step-SendsDownlink (handles_freed q d m p w e) old =
      rw e (unless-Down (uses_map (decode_type m.message_type)) _ (rw p at old))
  Step-SendsDownlink (signals q o p w e) old =
      rw e (unless-Down q.freed _ (announce-Down q.server (rw p at old)))
  Step-SendsDownlink (joins q o p w e) old =
      rw e (rw (destroy-Keeps h f garbage q.server).1 (rw p at old))
  Step-SendsDownlink (returns q o p w e) old = rw e (signal-Down q o (rw p at old))
  Step-SendsDownlink (ping_tests q p w e) old = rw e (rw p at old)
  Step-SendsDownlink (pings q clock p w e) old = rw e (
      unless-Down q.freed _ (
        rw (ping_clients_lem h f clock q.server) (
          AreDownlink-append q.server.sent _ (rw p at old) (
            messages-AreDownlink (λ e. overdue (clock e) e.1) (typed_message 7)
              (h.entries q.server.clients) refl))))
  Step-SendsDownlink (drops q clock visited p w entries e) old =
      rw e
        (unless-Down q.freed _ (rw (drop_clients-sends h f clock visited q.server) (rw p at old)))
  Step-SendsDownlink (measure_tests q p w e) old = rw e (rw p at old)
  Step-SendsDownlink (measures q p w e) old = rw e (
      unless-Down q.freed _ (
        rw (broadcasts_lem h f q.server).0 (
          AreDownlink-append q.server.sent _ (rw p at old) (
            messages-AreDownlink (λ e. true) (typed_message 11) (h.entries q.server.clients)
              refl))))
  Step-SendsDownlink (transfer_tests q p w e) old = rw e (rw p at old)
  Step-SendsDownlink (transfers q deliver memory p w e) old =
      let all : AreDownlink q.server.sent = rw p at old in
      rw e (
        unless-Down q.freed _ (
          transfer-Down q _ all
            (transfer_clients-Down h deliver memory (h.entries q.server.clients) q.server all)))

  bind-sent :
      (k : Startup) (o : Option ℕ) (x : Server h)
      → bind_and_listen h f garbage k o ≡ running x
      → x.sent ≡ []
  unfolding bind_and_listen server_init early_error clean
  bind-sent k none x e = ground arith
  bind-sent k (some socket) x e = ground arith

  start-sent : (k : Startup) (x : Server h) → init_server h f garbage k ≡ running x → x.sent ≡ []
  unfolding init_server
  start-sent k x e = bind-sent k k.descriptor x e

  -- Whatever the clients send, whichever calls fail, and in whatever order the threads take their
  -- steps, a SIGINT among them: every message that the eNodeB sends has a type that is meant for
  -- clients, and none has a type that is for the eNodeB or is not declared.
  pub Reach-SendsDownlink : {s : State h} → Reach h f garbage s → SendsDownlink s
  Reach-SendsDownlink (start k x e) = rw (start-sent k x e) tt
  Reach-SendsDownlink (later r st) = Step-SendsDownlink st (Reach-SendsDownlink r)
