-- ===== src/Enb/Ping/Rounds.antt =====
-- Whom a round of pings, of measurement control requests or of shutdown notices reaches.
use lte.Base.{
  ℕ, ◌≡◌, refl, ℤ, pos, ◌-ℤ◌, ltb_ℤ, Bool, true, false, if◌then◌else◌, Bool-cases, inl, inr, List,
  [], ◌∷◌, ◌++◌, arith, ◌∙◌, eqb_ℤ, some,
}
use mathlib.Core.List.{append-nil, append_assoc}
use lte.Message.{SMessage, type_code, ping}
use lte.Enb.ClientObject.{ClientT, ClientMap, Format, Entry, BatteryState, ok, low}
use lte.Enb.Server.{
  Server, typed_message, send, hashmap_iter, notify_client_of_shutdown,
  broadcast_shutdown_notification, close_socket, close_client_socket, close_clients_sockets,
  server_destroy, clean,
}
use lte.Enb.Ping.{
  should_ping, ping_client, send_measurement_control_request, ping_clients, request_measurements,
}

-- A good battery allows five quiet seconds, a low one ten.
abbrev pub allowance : BatteryState → ℕ
allowance ok = 5
allowance low = 10

-- Silent for longer than the battery allows.
abbrev pub overdue : ℕ → ClientT → Bool
overdue now c = ltb_ℤ (pos (allowance c.battery_state)) (pos now -ℤ c.last_activity)

should_ping-overdue : (now : ℕ) (c : ClientT) → should_ping now c ≡ overdue now c
unfolding should_ping
should_ping-overdue now c = ground arith

-- The messages that go to the clients of `es` that pass `test`, in order.
abbrev pub messages : (Entry → Bool) → SMessage → List Entry → List (ℕ × SMessage)
messages test m [] = []
messages test m (e ∷ es) =
    let rest = messages test m es in if test e then (e.1.socket, m) ∷ rest else rest

module _ (h : ClientMap) (f : Format) where
  -- What a round of messages does to the server: the clients and the descriptors stay.
  abbrev pub Sends : List (ℕ × SMessage) → Server h → Server h → Type 0
  Sends ms s t = t ≡ record s { sent = s.sent ++ ms }

  iter-ping :
      (clock : Entry → ℕ) (es : List Entry) (s : Server h)
      → Sends
          (messages (λ e. overdue (clock e) e.1) (typed_message (type_code ping)) es)
          s
          (hashmap_iter (λ e. ping_client h f (clock e) e) es s)
  unfolding hashmap_iter ping_client send
  iter-ping clock [] s = rw append-nil
  iter-ping clock ((k, c) ∷ es) s =
      rw (should_ping-overdue (clock (k, c)) c) (elim (Bool-cases (overdue (clock (k, c)) c)) [
        | inl due ↦ rw due (iter-ping clock es _ ∙ rw append_assoc refl)
        | inr quiet ↦ rw quiet (iter-ping clock es s)
      ])

  -- A round of pings sends one `ping` to each client whose silence is longer than its battery
  -- allows, in the order of the map, and does nothing else.
  pub ping_clients_lem :
      (clock : Entry → ℕ) (s : Server h)
      → Sends
          (messages (λ e. overdue (clock e) e.1) (typed_message 7) (h.entries s.clients))
          s
          (ping_clients h f clock s)
  unfolding ping_clients
  ping_clients_lem clock s = iter-ping clock (h.entries s.clients) s

  iter-measurement :
      (es : List Entry) (s : Server h)
      → Sends
          (messages (λ e. true) (typed_message 11) es)
          s
          (hashmap_iter (send_measurement_control_request h f) es s)
  unfolding hashmap_iter send_measurement_control_request send
  iter-measurement [] s = rw append-nil
  iter-measurement ((k, c) ∷ es) s = iter-measurement es _ ∙ rw append_assoc refl

  iter-notify :
      (es : List Entry) (s : Server h)
      → Sends
          (messages (λ e. true) (typed_message 10) es)
          s
          (hashmap_iter (notify_client_of_shutdown h f) es s)
  unfolding hashmap_iter notify_client_of_shutdown send
  iter-notify [] s = rw append-nil
  iter-notify ((k, c) ∷ es) s = iter-notify es _ ∙ rw append_assoc refl

  -- A round of measurement control requests reaches every client once, and a shutdown broadcast
  -- tells every client once; neither changes anything else.
  pub broadcasts_lem :
      (s : Server h)
      → Sends
          (messages (λ e. true) (typed_message 11) (h.entries s.clients))
          s
          (request_measurements h f s)
        × Sends
            (messages (λ e. true) (typed_message 10) (h.entries s.clients))
            s
            (broadcast_shutdown_notification h f s)
  unfolding request_measurements broadcast_shutdown_notification
  broadcasts_lem s = (iter-measurement (h.entries s.clients) s, iter-notify (h.entries s.clients) s)

  -- The descriptors that the keys of `es` spell.
  abbrev pub spelled : List Entry → List ℕ
  spelled [] = []
  spelled (e ∷ es) = f.atoi e.0 ∷ spelled es

  iter-close :
      (garbage : Entry → ℤ) (es : List Entry) (s : Server h)
      → ((e : Entry) → garbage e ≡ pos 0)
      → hashmap_iter (close_client_socket h f garbage) es s
        ≡ record s { closed = s.closed ++ spelled es }
  unfolding hashmap_iter close_client_socket close_socket
  iter-close garbage [] s zero = rw append-nil
  iter-close garbage ((k, c) ∷ es) s zero =
      rw (zero (k, c)) (iter-close garbage es _ zero ∙ rw append_assoc refl)

  -- If the callback that closes the sockets happens to return 0, `clean` tells every client of
  -- the shutdown, lets the threads end, closes the socket of every client and then its own, and
  -- leaves no client.
  pub clean_lem :
      (garbage : Entry → ℤ) (s : Server h)
      → ((e : Entry) → garbage e ≡ pos 0)
      → clean h f garbage (some s)
        ≡ some (record s {
          clients = h.init;
          sent = s.sent ++ messages (λ e. true) (typed_message 10) (h.entries s.clients);
          closed = s.closed ++ spelled (h.entries s.clients) ++ s.socket ∷ [];
          threads_done = true;
        })
  unfolding clean server_destroy close_clients_sockets close_socket broadcast_shutdown_notification
  clean_lem garbage s zero =
      rw (iter-notify (h.entries s.clients) s)
        (rw (iter-close garbage (h.entries s.clients) _ zero))

  -- `close_client_socket` returns nothing, so what `hashmap_iter` reads as its result is up to
  -- the machine: if that is not 0 after the first client, no other client's socket is closed.
  clean_stops_early :
      (garbage : Entry → ℤ) (s : Server h) (e : Entry) (es : List Entry)
      → h.entries s.clients ≡ e ∷ es
      → eqb_ℤ (garbage e) (pos 0) ≡ false
      → (close_clients_sockets h f garbage s).closed ≡ s.closed ++ f.atoi e.0 ∷ []
  unfolding close_clients_sockets hashmap_iter close_client_socket close_socket
  clean_stops_early garbage s e es first odd = rw first (rw odd)
