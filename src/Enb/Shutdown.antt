-- ===== src/Enb/Shutdown.antt =====
-- The end of the eNodeB by SIGINT: `clean` of server.c as the signal's handler, which may come
-- while the event loop waits or handles a message, and the loops of the three other threads.
--
-- The kernel gives the signal to the main thread, which blocks it only while its handler runs.
-- `clean` runs in two parts, around its `pthread_join`; `freed` says that the second one has
-- destroyed the map, from where on every use of the map is undefined behaviour. The `clean` of an
-- `error` is one step here, with the exit behind it.
pub mod Guarded
pub mod Path
pub mod Ends
pub mod Types
pub mod Consistent
use lte.Base.{ℕ, ◌≡◌, ℤ, Bool, true, false, not, ◌&&◌, if◌then◌else◌, Option, none, some, List}
use lte.Message.{
  SMessage, EMessageType, decode_type, random_access_request, rrc_request, ue_battery_low,
  ue_battery_high, pong, ue_off,
}
use lte.Enb.ClientObject.{ClientMap, Format, Entry}
use lte.Enb.Server.{
  Server, Outcome, running, exited, crashed, Accepted, accept_client, announce, server_destroy,
}
use lte.Enb.Packet.{read_error, disconnected, dispatch, parse_packet}
use lte.Enb.Ping.{ping_clients, drop_clients, request_measurements}
use lte.Enb.Ping.Inactive.{AreEntries}
use lte.Enb.Transfer.Clients.{
  Delivery, Ending, returned, exit_success, exit_failure, out_of_fuel, transfer_clients,
}
use lte.Enb.Start.{Startup, wait_error, receive_one, init_server}

-- Where the loop of a thread is: before the test of `threads_done`, before its iteration over the
-- clients, before the second iteration of the ping thread, or behind the loop.
pub data Loop : Type 0 where
  testing acting dropping finished : Loop

-- What the main thread is at: the event loop, which may have read a message, the `pthread_join`
-- of `clean`, or the end of `clean`; then it goes on with what the signal interrupted.
pub data Work : Type 0 where
  serving joining cleaned : Option (ℕ × SMessage) → Work

pub record Process (h : ClientMap) : Type 0 where
  pub server : Server h
  pub freed : Bool
  pub work : Work
  pub ping : Loop
  pub measure : Loop
  pub transfer : Loop

pub data State (h : ClientMap) : Type 0 where
  process : Process h → State h
  gone : Server h → State h
  null_pointer use_after_free : State h

-- `while (!threads_done)`
unfoldable pub test_done : {h : ClientMap} → Server h → Loop
test_done s = if s.threads_done then finished else acting

-- The messages whose handler looks a client up, or deletes one.
abbrev pub uses_map : Option EMessageType → Bool
uses_map (some random_access_request) = true
uses_map (some rrc_request) = true
uses_map (some ue_battery_low) = true
uses_map (some ue_battery_high) = true
uses_map (some pong) = true
uses_map (some ue_off) = true
uses_map _ = false

module _ {h : ClientMap} where
  -- An access to the map.
  abbrev pub on_map : Process h → State h → State h
  on_map q s = if q.freed then use_after_free else s

  -- `error`, which leaves the map alone where `errno` is `EINTR`.
  abbrev pub on_error : Bool → Process h → State h → State h
  on_error interrupted q s = if q.freed && not interrupted then use_after_free else s

  -- The event loop does not change the loops of the other threads.
  abbrev pub after_event : Process h → Outcome h → State h
  after_event q (running x) = process (record q { server = x; work = serving none })
  after_event q (exited x) = gone x
  after_event q crashed = null_pointer

  -- A transfer that runs out of fuel would go on for ever.
  abbrev pub after_sample : Process h → Ending h → State h
  after_sample q (returned x) = process (record q { server = x; transfer = finished })
  after_sample q (exit_success x) = gone x
  after_sample q (exit_failure x) = gone x
  after_sample q out_of_fuel = process q

  -- `epoll_wait` fails with `EINTR` where the signal came while it waited, and `error` exits.
  abbrev pub after_signal : Process h → Option (ℕ × SMessage) → State h
  after_signal q none = gone q.server
  after_signal q (some p) = process (record q { work = serving (some p) })

  -- A handler after `clean`.
  abbrev pub handle_freed : Process h → SMessage → State h
  handle_freed q m =
      if uses_map (decode_type m.message_type)
      then use_after_free
      else process (record q { work = serving none })

module _ (h : ClientMap) (f : Format) (garbage : Entry → ℤ) where
  pub data Step (s t : State h) : Type 0 where
    accepts :
        (q : Process h) (interrupted : Bool) (a : Accepted)
        → s ≡ process q
        → (q.work ≡ serving none) × (q.freed ≡ false)
        → t ≡ after_event q (accept_client h f interrupted garbage a q.server)
        → Step s t
    reads :
        (q : Process h) (d : ℕ) (m : SMessage)
        → s ≡ process q
        → q.work ≡ serving none
        → t ≡ process (record q { work = serving (some (d, m)) })
        → Step s t
    read_fails :
        (q : Process h) (d now : ℕ) (interrupted : Bool)
        → s ≡ process q
        → q.work ≡ serving none
        → t
          ≡ on_error interrupted q
              (after_event q (parse_packet h f garbage d (read_error interrupted) now q.server))
        → Step s t
    leaves :
        (q : Process h) (d now : ℕ)
        → s ≡ process q
        → q.work ≡ serving none
        → t ≡ on_map q (after_event q (parse_packet h f garbage d disconnected now q.server))
        → Step s t
    wait_fails :
        (q : Process h) (interrupted : Bool)
        → s ≡ process q
        → q.work ≡ serving none
        → t
          ≡ on_error interrupted q
              (after_event q (receive_one h f garbage (wait_error interrupted) q.server))
        → Step s t
    handles :
        (q : Process h) (d : ℕ) (m : SMessage) (now : ℕ)
        → s ≡ process q
        → (q.work ≡ serving (some (d, m))) × (q.freed ≡ false)
        → t ≡ after_event q (dispatch h f (decode_type m.message_type) d m now q.server)
        → Step s t
    handles_freed :
        (q : Process h) (d : ℕ) (m : SMessage)
        → s ≡ process q
        → (q.work ≡ serving (some (d, m))) × (q.freed ≡ true)
        → t ≡ handle_freed q m
        → Step s t
    signals :
        (q : Process h) (o : Option (ℕ × SMessage))
        → s ≡ process q
        → q.work ≡ serving o
        → t ≡ on_map q (process (record q { server = announce h f q.server; work = joining o }))
        → Step s t
    joins :
        (q : Process h) (o : Option (ℕ × SMessage))
        → s ≡ process q
        → (q.work ≡ joining o) × (q.ping ≡ finished)
        → t
          ≡ process (record q {
            server = server_destroy h f garbage q.server;
            freed = true;
            work = cleaned o;
          })
        → Step s t
    returns :
        (q : Process h) (o : Option (ℕ × SMessage))
        → s ≡ process q
        → q.work ≡ cleaned o
        → t ≡ after_signal q o
        → Step s t
    ping_tests :
        (q : Process h)
        → s ≡ process q
        → q.ping ≡ testing
        → t ≡ process (record q { ping = test_done q.server })
        → Step s t
    pings :
        (q : Process h) (clock : Entry → ℕ)
        → s ≡ process q
        → q.ping ≡ acting
        → t
          ≡ on_map q
              (process (record q { server = ping_clients h f clock q.server; ping = dropping }))
        → Step s t
    drops :
        (q : Process h) (clock : Entry → ℕ) (visited : List Entry)
        → s ≡ process q
        → q.ping ≡ dropping
        → AreEntries h f clock q.server visited
        → t
          ≡ on_map q (
              process
                (record q { server = drop_clients h f clock visited q.server; ping = testing }))
        → Step s t
    measure_tests :
        (q : Process h)
        → s ≡ process q
        → q.measure ≡ testing
        → t ≡ process (record q { measure = test_done q.server })
        → Step s t
    measures :
        (q : Process h)
        → s ≡ process q
        → q.measure ≡ acting
        → t
          ≡ on_map q
              (process (record q { server = request_measurements h f q.server; measure = testing }))
        → Step s t
    transfer_tests :
        (q : Process h)
        → s ≡ process q
        → q.transfer ≡ testing
        → t ≡ process (record q { transfer = test_done q.server })
        → Step s t
    transfers :
        (q : Process h) (deliver : Entry → Delivery) (memory : List ℕ)
        → s ≡ process q
        → q.transfer ≡ acting
        → t
          ≡ on_map q (
              after_sample q
                (transfer_clients h deliver memory (h.entries q.server.clients) q.server))
        → Step s t

  abbrev pub started : Server h → Process h
  started x = record {
    server = x;
    freed = false;
    work = serving none;
    ping = testing;
    measure = testing;
    transfer = testing;
  }

  pub data Reach : State h → Type 0 where
    start :
        (k : Startup) (x : Server h)
        → init_server h f garbage k ≡ running x
        → Reach (process (started x))
    later : {s t : State h} → Reach s → Step s t → Reach t
