-- ===== src/Enb/Threads.antt =====
-- The eNodeB as all its threads: the event loop, whose handling of a message is the `read` and
-- then the handler, and the rounds of the ping, measurement and transfer threads, in any order.
--
-- The kernel reports the sockets of clients in the map and the listening socket; a descriptor is
-- reported again only once it is accepted again. A step is taken as a whole: a handler, a round
-- of a thread over the clients, or the whole of `transfer_data` with the exit behind it, in which
-- the source can be interrupted by another thread. A SIGINT comes while the event loop waits.
pub mod Orderly
pub mod Safety
pub mod Fresh
use lte.Base.{ℕ, ◌≡◌, ◌≢◌, ℤ, Bool, true, false, Option, none, some, List}
use lte.Message.{SMessage, decode_type}
use lte.Enb.ClientObject.{ClientT, ClientMap, Format, Entry}
use lte.Enb.Server.{Server, Outcome, running, exited, crashed, Accepted, accept_client}
use lte.Enb.Packet.{Packet, read_error, disconnected, dispatch, parse_packet}
use lte.Enb.Packet.Frame.{found}
use lte.Enb.Ping.{ping_clients, drop_clients, request_measurements}
use lte.Enb.Ping.Inactive.{AreEntries}
use lte.Enb.Transfer.Clients.{
  Delivery, Ending, returned, exit_success, exit_failure, out_of_fuel, transfer_data,
}
use lte.Enb.Start.{Startup, wait_error, signalled, receive_one, init_server}

-- `live` has the message that the event loop has read and not handled yet, with its socket.
pub data State (h : ClientMap) : Type 0 where
  live : Server h → Option (ℕ × SMessage) → State h
  ended : State h
  faulted : State h

abbrev pub after : {h : ClientMap} → Outcome h → State h
after (running s) = live s none
after (exited s) = ended
after crashed = faulted

abbrev pub after_thread : {h : ClientMap} → Option (ℕ × SMessage) → Ending h → State h
after_thread p (returned s) = live s p
after_thread p (exit_success s) = ended
after_thread p (exit_failure s) = ended
after_thread p out_of_fuel = faulted

module _ (h : ClientMap) (f : Format) (garbage : Entry → ℤ) where
  -- One step of one thread; `drops` says whether the ping thread may drop clients.
  pub data Step (drops : Bool) (s t : State h) : Type 0 where
    accept :
        (x : Server h) (interrupted : Bool) (a : Accepted)
        → s ≡ live x none
        → t ≡ after (accept_client h f interrupted garbage a x)
        → Step drops s t
    read :
        (x : Server h) (d : ℕ) (m : SMessage) (c : ClientT)
        → s ≡ live x none
        → found h f x d ≡ some c
        → t ≡ live x (some (d, m))
        → Step drops s t
    read_fails :
        (x : Server h) (d now : ℕ) (interrupted : Bool)
        → s ≡ live x none
        → t ≡ after (parse_packet h f garbage d (read_error interrupted) now x)
        → Step drops s t
    leave :
        (x : Server h) (d now : ℕ)
        → s ≡ live x none
        → t ≡ after (parse_packet h f garbage d disconnected now x)
        → Step drops s t
    handle :
        (x : Server h) (d : ℕ) (m : SMessage) (now : ℕ)
        → s ≡ live x (some (d, m))
        → t ≡ after (dispatch h f (decode_type m.message_type) d m now x)
        → Step drops s t
    wait_fails :
        (x : Server h) (interrupted : Bool)
        → s ≡ live x none
        → t ≡ after (receive_one h f garbage (wait_error interrupted) x)
        → Step drops s t
    signal :
        (x : Server h)
        → s ≡ live x none
        → t ≡ after (receive_one h f garbage signalled x)
        → Step drops s t
    ping :
        (x : Server h) (p : Option (ℕ × SMessage)) (clock : Entry → ℕ)
        → s ≡ live x p
        → t ≡ live (ping_clients h f clock x) p
        → Step drops s t
    drop :
        (x : Server h) (p : Option (ℕ × SMessage)) (clock : Entry → ℕ) (visited : List Entry)
        → drops ≡ true
        → s ≡ live x p
        → AreEntries h f clock x visited
        → t ≡ live (drop_clients h f clock visited x) p
        → Step drops s t
    measure :
        (x : Server h) (p : Option (ℕ × SMessage))
        → s ≡ live x p
        → t ≡ live (request_measurements h f x) p
        → Step drops s t
    transfer :
        (x : Server h) (p : Option (ℕ × SMessage)) (deliver : Entry → Delivery) (memory : List ℕ)
        → s ≡ live x p
        → t ≡ after_thread p (transfer_data h deliver memory x)
        → Step drops s t

  pub data Reach (drops : Bool) : State h → Type 0 where
    start :
        (k : Startup) {x : Server h}
        → init_server h f garbage k ≡ running x
        → Reach drops (live x none)
    later : {s t : State h} → Reach drops s → Step drops s t → Reach drops t
