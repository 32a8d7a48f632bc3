-- ===== src/Enb/Packet/Frame.antt =====
-- What a packet can touch: the record of its own client, and no other.
use lte.Base.{ℕ, ◌≡◌, ◌≢◌, ◌↔◌, refl, ℤ, Option, none, some, Bool, true, false}
use lte.Message.{
  SMessage, EMessageType, decode_type, random_access_request, rrc_request, ue_battery_low,
  ue_battery_high, pong, ue_off,
}
use lte.Enb.ClientObject.{ClientT, ClientMap, Format, Entry, get_client_by_socket}
use lte.Enb.ClientObject.Laws
use lte.Enb.Server.{
  Server, Outcome, running, exited, crashed, error, update_found, update_client_by_ra_rnti_data,
  send, close_socket, clean,
}
use lte.Enb.Packet.{
  Packet, read_error, disconnected, arrived, dispatch, parse_packet, update_client, setup_found,
  handle_pong, handle_low_battery_request, handle_high_battery_request, handle_client_power_off,
  send_rrc_setup, handle_random_access_request,
}

module _ (h : ClientMap) (f : Format) where
  abbrev pub found : Server h → ℕ → Option ClientT
  found s socket = get_client_by_socket h f s.clients socket

  -- The outcome of a handler leaves the other clients and the listening socket alone.
  abbrev pub Frames : ℕ → Server h → Outcome h → Type 0
  Frames other s (running t) = (found t other ≡ found s other) × (t.socket ≡ s.socket)
  Frames other s (exited t) = Unit
  Frames other s crashed = Unit

  update_found-frame :
      (o : Option ClientT) (socket other index now rnti : ℕ) (s : Server h)
      → socket ≢ other
      → Frames other s (running (update_found h f o socket index now rnti s))
  unfolding update_found
  update_found-frame none socket other index now rnti s ne = (refl, refl)
  update_found-frame (some c) socket other index now rnti s ne =
      (Laws.get-put_ne h f s.clients socket other _ ne, refl)

  random_access-frame :
      (socket other : ℕ) (m : SMessage) (now : ℕ) (s : Server h)
      → socket ≢ other
      → Frames other s (running (handle_random_access_request h f socket m now s))
  unfolding handle_random_access_request update_client_by_ra_rnti_data send
  random_access-frame socket other m now s ne = update_found-frame _ socket other _ now _ _ ne

  update_client-frame :
      (o : Option ClientT) (change : ClientT → ClientT) (socket other : ℕ) (s : Server h)
      → socket ≢ other
      → Frames other s (update_client h f o change socket s)
  unfolding update_client
  update_client-frame none change socket other s ne = tt
  update_client-frame (some c) change socket other s ne =
      (Laws.get-put_ne h f s.clients socket other (change c) ne, refl)

  setup-frame :
      (o : Option ClientT) (socket other : ℕ) (s : Server h)
      → Frames other s (setup_found h f o socket s)
  unfolding setup_found send
  setup-frame none socket other s = tt
  setup-frame (some c) socket other s = (refl, refl)

  dispatch-frame :
      (t : Option EMessageType) (socket other : ℕ) (m : SMessage) (now : ℕ) (s : Server h)
      → socket ≢ other
      → Frames other s (dispatch h f t socket m now s)
  unfolding dispatch send_rrc_setup handle_low_battery_request handle_high_battery_request
      handle_pong handle_client_power_off close_socket
  dispatch-frame (some random_access_request) socket other m now s ne =
      random_access-frame socket other m now s ne
  dispatch-frame (some rrc_request) socket other m now s ne = setup-frame _ socket other s
  dispatch-frame (some ue_battery_low) socket other m now s ne =
      update_client-frame _ _ socket other s ne
  dispatch-frame (some ue_battery_high) socket other m now s ne =
      update_client-frame _ _ socket other s ne
  dispatch-frame (some pong) socket other m now s ne = update_client-frame _ _ socket other s ne
  dispatch-frame (some ue_off) socket other m now s ne =
      (Laws.get-delete_ne h f s.clients socket other ne, refl)
  dispatch-frame _ socket other m now s ne = (refl, refl)

  error-frame :
      (garbage : Entry → ℤ) (interrupted : Bool) (other : ℕ) (s : Server h)
      → Frames other s (error h f interrupted garbage s)
  unfolding error clean
  error-frame garbage true other s = tt
  error-frame garbage false other s = tt

  pub packet-frame :
      (garbage : Entry → ℤ) (socket other : ℕ) (p : Packet) (now : ℕ) (s : Server h)
      → socket ≢ other
      → Frames other s (parse_packet h f garbage socket p now s)
  unfolding parse_packet close_socket
  packet-frame garbage socket other (read_error interrupted) now s ne =
      error-frame garbage interrupted other s
  packet-frame garbage socket other disconnected now s ne =
      (Laws.get-delete_ne h f s.clients socket other ne, refl)
  packet-frame garbage socket other (arrived m) now s ne =
      dispatch-frame (decode_type m.message_type) socket other m now s ne

  -- Whatever arrives from one socket, a disconnection included, if the server goes on then the
  -- record that it finds for any other socket is the one that it found before.
  parse_packet-frame :
      (garbage : Entry → ℤ) (socket other : ℕ) (p : Packet) (now : ℕ) (s : Server h) {t : Server h}
      → socket ≢ other
      → parse_packet h f garbage socket p now s ≡ running t
      → found t other ≡ found s other
  parse_packet-frame garbage socket other p now s ne e =
      (rw e at (packet-frame garbage socket other p now s ne)).0

  -- The types whose handler uses the pointer of `get_client_by_socket` with no test.
  abbrev pub uses_record : Option EMessageType → Bool
  uses_record (some rrc_request) = true
  uses_record (some ue_battery_low) = true
  uses_record (some ue_battery_high) = true
  uses_record (some pong) = true
  uses_record _ = false

  update_client-crash :
      (o : Option ClientT) (change : ClientT → ClientT) (socket : ℕ) (s : Server h)
      → (update_client h f o change socket s ≡ crashed) ↔ (o ≡ none)
  unfolding update_client
  update_client-crash none change socket s = (λ _. refl, λ _. refl)
  update_client-crash (some c) change socket s = (λ e. cc, λ e. cc)

  setup-crash :
      (o : Option ClientT) (socket : ℕ) (s : Server h)
      → (setup_found h f o socket s ≡ crashed) ↔ (o ≡ none)
  unfolding setup_found
  setup-crash none socket s = (λ _. refl, λ _. refl)
  setup-crash (some c) socket s = (λ e. cc, λ e. cc)

  pub dispatch-crash :
      (t : Option EMessageType) (socket : ℕ) (m : SMessage) (now : ℕ) (s : Server h)
      → (dispatch h f t socket m now s ≡ crashed)
        ↔ ((uses_record t ≡ true) × (found s socket ≡ none))
  unfolding dispatch send_rrc_setup handle_low_battery_request handle_high_battery_request
      handle_pong
  dispatch-crash (some rrc_request) socket m now s =
      let (there, back) = setup-crash (found s socket) socket s in
      (λ e. (refl, there e), λ e. back e.1)
  dispatch-crash (some ue_battery_low) socket m now s =
      let (there, back) = update_client-crash (found s socket) _ socket s in
      (λ e. (refl, there e), λ e. back e.1)
  dispatch-crash (some ue_battery_high) socket m now s =
      let (there, back) = update_client-crash (found s socket) _ socket s in
      (λ e. (refl, there e), λ e. back e.1)
  dispatch-crash (some pong) socket m now s =
      let (there, back) = update_client-crash (found s socket) _ socket s in
      (λ e. (refl, there e), λ e. back e.1)
  dispatch-crash _ socket m now s = (λ e. cc, λ e. cc)

  -- A message that arrives from a socket crashes the server exactly when the socket has no client
  -- and the type is `rrc_request`, `ue_battery_low`, `ue_battery_high` or `pong`. From a client
  -- in the map no message does.
  pub parse_packet-crash_iff :
      (garbage : Entry → ℤ) (socket : ℕ) (m : SMessage) (now : ℕ) (s : Server h)
      → (parse_packet h f garbage socket (arrived m) now s ≡ crashed)
        ↔ ((uses_record (decode_type m.message_type) ≡ true) × (found s socket ≡ none))
  unfolding parse_packet
  parse_packet-crash_iff garbage socket m now s =
      dispatch-crash (decode_type m.message_type) socket m now s
