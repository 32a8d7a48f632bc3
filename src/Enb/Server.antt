-- ===== src/Enb/Server.antt =====
-- server.h, server.c, client_handler.c and main.c of the eNodeB: the server's state, the clients'
-- records, and the event loop's accepting side.
use lte.Base.{ℕ, ℤ, pos, Bool, true, if◌then◌else◌, Option, none, some, List, [], ◌∷◌, ◌++◌, eqb_ℤ}
use lte.Message.{SMessage, zero_message, type_code, enb_off}
use lte.Enb.ClientObject.{
  ClientT, ClientMap, Format, Entry, ok, get_client_by_socket, put_client_in_hashmap,
}

-- `server_t` with what its calls have had the kernel do: the `send`s in order (a server that does
-- not look at the result sends on), the closed descriptors, and those given to `epoll_ctl`.
pub record Server (h : ClientMap) : Type 0 where
  pub socket : ℕ
  pub clients : h.Map
  pub sent : List (ℕ × SMessage)
  pub closed : List ℕ
  pub watched : List ℕ
  pub threads_done : Bool

-- `exited` is `exit(EXIT_FAILURE)`; `crashed` is a read or write through a null pointer.
pub data Outcome (h : ClientMap) : Type 0 where
  running : Server h → Outcome h
  exited : Server h → Outcome h
  crashed : Outcome h

-- A zeroed message of one type, as the handlers build it.
abbrev pub typed_message : ℕ → SMessage
typed_message t = record zero_message { message_type = t }

-- `hashmap_iter` with a callback that leaves the map alone: it stops once a callback returns
-- something other than 0.
unfoldable pub hashmap_iter {ℓ} : {S : Type ℓ} → (Entry → S → S × ℤ) → List Entry → S → S
hashmap_iter cb [] s = s
hashmap_iter cb (e ∷ es) s =
    let (s', should_break) = cb e s in
    let rest = hashmap_iter cb es s' in if eqb_ℤ should_break (pos 0) then rest else s'

-- What the kernel decides in `accept_client`: the descriptor, the contents of the memory that
-- `malloc` returns, and whether `epoll_ctl` accepts it.
pub record Accepted : Type 0 where
  pub descriptor : Option ℕ
  pub memory : ClientT
  pub registered : Bool

module _ (h : ClientMap) (f : Format) where
  unfoldable pub send : ℕ → SMessage → Server h → Server h
  send socket m s = record s { sent = s.sent ++ (socket, m) ∷ [] }

  unfoldable pub close_socket : ℕ → Server h → Server h
  close_socket socket s = record s { closed = s.closed ++ socket ∷ [] }

  unfoldable pub update_found : Option ClientT → ℕ → ℕ → ℕ → ℕ → Server h → Server h
  update_found none socket preamble_index now received_ra_rnti s = s
  update_found (some c) socket preamble_index now received_ra_rnti s = record s {
    clients = put_client_in_hashmap h f s.clients socket (record c {
      preamble_index = preamble_index;
      last_activity = pos now;
      first_connection_timestamp = pos now;
      rnti = received_ra_rnti;
      battery_state = ok;
    });
  }

  unfoldable pub update_client_by_ra_rnti_data : ℕ → ℕ → ℕ → ℕ → Server h → Server h
  unfolding update_found
  update_client_by_ra_rnti_data socket preamble_index now received_ra_rnti s =
      update_found (get_client_by_socket h f s.clients socket) socket preamble_index now
        received_ra_rnti s

  -- `notify_client_of_shutdown`, a callback.
  unfoldable pub notify_client_of_shutdown : Entry → Server h → Server h × ℤ
  notify_client_of_shutdown (k, c) s = (send c.socket (typed_message (type_code enb_off)) s, pos 0)

  unfoldable pub broadcast_shutdown_notification : Server h → Server h
  broadcast_shutdown_notification s = hashmap_iter notify_client_of_shutdown (h.entries s.clients) s

  -- A `void` function that is called as a callback with an `int` result: what the caller reads is
  -- whatever the register holds, `garbage`.
  unfoldable pub close_client_socket : (Entry → ℤ) → Entry → Server h → Server h × ℤ
  close_client_socket garbage (k, c) s = (close_socket (f.atoi k) s, garbage (k, c))

  unfoldable pub close_clients_sockets : (Entry → ℤ) → Server h → Server h
  close_clients_sockets garbage s =
      hashmap_iter (close_client_socket garbage) (h.entries s.clients) s

  -- The freed map is not used again.
  unfoldable pub server_destroy : (Entry → ℤ) → Server h → Server h
  server_destroy garbage s =
      let closed = close_clients_sockets garbage s in
      close_socket s.socket (record closed { clients = h.init })

  -- `clean` up to its `pthread_join`: the broadcast and then `threads_done`, as one step.
  unfoldable pub announce : Server h → Server h
  announce s = record (broadcast_shutdown_notification s) { threads_done = true }

  -- `none` is the global before `server_t__init`: its null map is read by the broadcast.
  unfoldable pub clean : (Entry → ℤ) → Option (Server h) → Option (Server h)
  unfolding announce
  clean garbage none = none
  clean garbage (some s) = some (server_destroy garbage (announce s))

  exit_with : Option (Server h) → Outcome h
  exit_with none = crashed
  exit_with (some s) = exited s

  -- `interrupted` says whether `errno` is `EINTR`.
  unfoldable pub error : Bool → (Entry → ℤ) → Server h → Outcome h
  unfolding exit_with
  error interrupted garbage s = if interrupted then exited s else exit_with (clean garbage (some s))

  unfoldable pub accept_descriptor : Bool → (Entry → ℤ) → Accepted → Option ℕ → Server h → Outcome h
  accept_descriptor interrupted garbage a none s = error interrupted garbage s
  accept_descriptor interrupted garbage a (some fd) s =
      if a.registered
      then running (record s {
        clients = put_client_in_hashmap h f s.clients fd (record a.memory { socket = fd });
        watched = s.watched ++ fd ∷ [];
      })
      else error interrupted garbage s

  unfoldable pub accept_client : Bool → (Entry → ℤ) → Accepted → Server h → Outcome h
  unfolding accept_descriptor
  accept_client interrupted garbage a s = accept_descriptor interrupted garbage a a.descriptor s
