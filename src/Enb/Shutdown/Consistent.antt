-- ===== src/Enb/Shutdown/Consistent.antt =====
-- Every client is stored under its own socket, whatever the threads do and whenever a SIGINT comes.
use lte.Base.{ℕ, ◌≡◌, sym, ℤ, Bool, true, false, if◌then◌else◌, Option, none, some}
use mathlib.Core.Path.{subst}
use lte.Message.{SMessage, decode_type}
use lte.Enb.ClientObject.{ClientMap, Format, Entry}
use lte.Enb.Server.{
  Server, Outcome, running, exited, crashed, announce, accept_client, server_destroy, close_socket,
}
use lte.Enb.Packet.{read_error, disconnected}
use lte.Enb.Consistent.{
  IsConsistent, Stays, dispatch-Stays, error-Stays, parse_packet-Stays, accept-Stays,
}
use lte.Enb.Ping.Rounds.{ping_clients_lem, broadcasts_lem}
use lte.Enb.Start.{receive_one}
use lte.Enb.Transfer.Clients.{Ending, returned, exit_success, exit_failure, out_of_fuel}
use lte.Enb.Threads
use lte.Enb.Threads.{ended, after_thread}
use lte.Enb.Threads.Orderly.{drop-IsConsistent, transfer_clients-ended}
use lte.Enb.Threads.Safety.{Reach-IsOrderly}
use lte.Enb.Shutdown.{
  Process, State, process, use_after_free, uses_map, after_event, after_sample, after_signal, Step,
  accepts, reads, read_fails, leaves, wait_fails, handles, handles_freed, signals, joins, returns,
  ping_tests, pings, drops, measure_tests, measures, transfer_tests, transfers, Reach, start, later,
}

module _ (h : ClientMap) (f : Format) (garbage : Entry → ℤ) where
  abbrev pub IsStored : State h → Type 0
  IsStored (process q) = IsConsistent h f q.server
  IsStored _ = Unit

  unless-IsStored :
      (freed : Bool) (s : State h) → IsStored s → IsStored (if freed then use_after_free else s)
  unless-IsStored true s old = tt
  unless-IsStored false s old = old

  event-IsStored : (q : Process h) (o : Outcome h) → Stays h f o → IsStored (after_event q o)
  event-IsStored q (running x) kept = kept
  event-IsStored q (exited x) kept = tt
  event-IsStored q crashed kept = tt

  sample-IsStored :
      (q : Process h) (e : Ending h)
      → after_thread none e ≡ ended
      → IsConsistent h f q.server
      → IsStored (after_sample q e)
  sample-IsStored q (returned x) ends old = cc
  sample-IsStored q (exit_success x) ends old = tt
  sample-IsStored q (exit_failure x) ends old = tt
  sample-IsStored q out_of_fuel ends old = old

  signal-IsStored :
      (q : Process h) (o : Option (ℕ × SMessage))
      → IsConsistent h f q.server
      → IsStored (after_signal q o)
  signal-IsStored q none old = tt
  signal-IsStored q (some p) old = old

  destroy-IsConsistent : (s : Server h) → IsConsistent h f (server_destroy h f garbage s)
  unfolding server_destroy close_socket
  destroy-IsConsistent s k c e = let empty = h.get-init k in cc

  announce-IsConsistent : (s : Server h) → IsConsistent h f s → IsConsistent h f (announce h f s)
  unfolding announce
  announce-IsConsistent s old = rw (broadcasts_lem h f s).1 old

  Step-IsStored : {s t : State h} → Step h f garbage s t → IsStored s → IsStored t
  unfolding receive_one accept_client
  Step-IsStored (accepts q i a p w e) old =
      rw e (event-IsStored q _ (accept-Stays h f garbage i a a.descriptor q.server (rw p at old)))
  Step-IsStored (reads q d m p w e) old = rw e (rw p at old)
  Step-IsStored (read_fails q d now i p w e) old = rw e (
      unless-IsStored _ _ (
        event-IsStored q _
          (parse_packet-Stays h f garbage d (read_error i) now q.server (rw p at old))))
  Step-IsStored (leaves q d now p w e) old = rw e (
      unless-IsStored q.freed _ (
        event-IsStored q _
          (parse_packet-Stays h f garbage d disconnected now q.server (rw p at old))))
  Step-IsStored (wait_fails q i p w e) old =
      rw e (unless-IsStored _ _ (event-IsStored q _ (error-Stays h f garbage i q.server)))
  Step-IsStored (handles q d m now p w e) old =
      rw e (event-IsStored q _ (dispatch-Stays h f _ d m now q.server (rw p at old)))
  Step-IsStored (handles_freed q d m p w e) old =
      rw e (unless-IsStored (uses_map (decode_type m.message_type)) _ (rw p at old))
  Step-IsStored (signals q o p w e) old =
      rw e (unless-IsStored q.freed _ (announce-IsConsistent q.server (rw p at old)))
  Step-IsStored (joins q o p w e) old = rw e (destroy-IsConsistent q.server)
  Step-IsStored (returns q o p w e) old = rw e (signal-IsStored q o (rw p at old))
  Step-IsStored (ping_tests q p w e) old = rw e (rw p at old)
  Step-IsStored (pings q clock p w e) old = rw e (
      unless-IsStored q.freed _
        (subst (IsConsistent h f) (sym (ping_clients_lem h f clock q.server)) (rw p at old)))
  Step-IsStored (drops q clock visited p w entries e) old =
      rw e (
        unless-IsStored q.freed _ (drop-IsConsistent h f true clock visited q.server (rw p at old)))
  Step-IsStored (measure_tests q p w e) old = rw e (rw p at old)
  Step-IsStored (measures q p w e) old = rw e (
      unless-IsStored q.freed _
        (subst (IsConsistent h f) (sym (broadcasts_lem h f q.server).0) (rw p at old)))
  Step-IsStored (transfer_tests q p w e) old = rw e (rw p at old)
  Step-IsStored (transfers q deliver memory p w e) old = rw e (
      unless-IsStored q.freed _ (
        sample-IsStored q _
          (transfer_clients-ended h f true none deliver memory (h.entries q.server.clients)
            q.server)
          (rw p at old)))

  -- Every client that the map holds is stored under its own socket.
  pub Reach-IsStored : {s : State h} → Reach h f garbage s → IsStored s
  Reach-IsStored (start k x e) = (Reach-IsOrderly h f garbage true (Threads.start k e)).0
  Reach-IsStored (later r st) = Step-IsStored st (Reach-IsStored r)
