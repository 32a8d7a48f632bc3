-- ===== src/Enb/Packet.antt =====
-- packet_handler.c: the handlers of the messages that clients send, and the event loop of
-- server.c that calls them.
pub mod Preamble
pub mod Frame
pub mod Effects
pub mod Loop
use lte.Base.{
  ℕ, ◌+◌, ◌/◌, ◌%◌, ◌==◌, ℤ, pos, Bool, true, false, if◌then◌else◌, bit_and, promote16, Option,
  none, some, List, [], ◌∷◌,
}
use lte.Message.{
  SMessage, EMessageType, RrcConfig, decode_type, type_code, random_access_request,
  random_access_response, rrc_request, rrc_setup, ue_battery_low, ue_battery_high, pong, ue_off,
  get_ra_rnti, set_response, set_rrc_config,
}
use lte.Enb.ClientObject.{
  ClientT, ClientMap, Format, Entry, BatteryState, ok, low, get_client_by_socket,
  put_client_in_hashmap, delete_client_from_hashmap,
}
use lte.Enb.Server.{
  Server, Outcome, running, exited, crashed, Accepted, typed_message, send, close_socket,
  update_client_by_ra_rnti_data, error, accept_client,
}

-- `extractPreambleIndex`: the `int8_t` pattern of `(ra_rnti & 0b1100000000000000) >> 8`, where
-- `ra_rnti` is promoted to `int`.
unfoldable pub extract_preamble_index : ℕ → ℕ
extract_preamble_index ra_rnti = bit_and (promote16 ra_rnti) 0b1100000000000000 / 256 % 256

-- `rnti` is the pattern of an `int16_t` that is stored into an `int`.
unfoldable pub generate_rrc_config : ℕ → RrcConfig
generate_rrc_config rnti = record {
  nulrb = 9;
  n_subframe = 0;
  n_cell_id = 10;
  rnti = promote16 rnti;
  cyclic_prefix = 0;
  hopping = 0;
  seg_group = 0;
  cyclic_shift = 0;
  short_end = 0;
}

-- What `read` gives in `parse_packet`: an error (with `errno` at `EINTR` or not), the end of the
-- stream, or the message that the zeroed buffer holds after it.
pub data Packet : Type 0 where
  read_error : Bool → Packet
  disconnected : Packet
  arrived : SMessage → Packet

unfoldable pub response_message : ℕ → ℕ → SMessage
response_message preamble_index timestamp =
    set_response preamble_index timestamp (typed_message (type_code random_access_response))

unfoldable pub setup_message : ℕ → SMessage
unfolding generate_rrc_config
setup_message rnti = set_rrc_config (generate_rrc_config rnti) (typed_message (type_code rrc_setup))

module _ (h : ClientMap) (f : Format) where
  unfoldable pub send_random_access_response : ℕ → ℕ → ℕ → Server h → Server h
  send_random_access_response socket preamble_index timestamp s =
      send h f socket (response_message preamble_index timestamp) s

  -- `preamble_index` goes through a `uint8_t`, which keeps its pattern.
  unfoldable pub handle_random_access_request : ℕ → SMessage → ℕ → Server h → Server h
  unfolding send_random_access_response
  handle_random_access_request socket m now s =
      let received_ra_rnti = get_ra_rnti m in
      let preamble_index = extract_preamble_index received_ra_rnti in
      update_client_by_ra_rnti_data h f socket preamble_index now received_ra_rnti
        (send_random_access_response socket preamble_index now s)

  -- A handler that writes through the pointer of `get_client_by_socket` without a test.
  unfoldable pub update_client : Option ClientT → (ClientT → ClientT) → ℕ → Server h → Outcome h
  update_client none change socket s = crashed
  update_client (some c) change socket s =
      running (record s { clients = put_client_in_hashmap h f s.clients socket (change c) })

  unfoldable pub handle_pong : ℕ → ℕ → Server h → Outcome h
  unfolding update_client
  handle_pong socket now s =
      update_client (get_client_by_socket h f s.clients socket)
        (λ c. record c { last_activity = pos now }) socket s

  unfoldable pub handle_low_battery_request : ℕ → Server h → Outcome h
  unfolding update_client
  handle_low_battery_request socket s =
      update_client (get_client_by_socket h f s.clients socket)
        (λ c. record c { battery_state = low }) socket s

  unfoldable pub handle_high_battery_request : ℕ → Server h → Outcome h
  unfolding update_client
  handle_high_battery_request socket s =
      update_client (get_client_by_socket h f s.clients socket)
        (λ c. record c { battery_state = ok }) socket s

  unfoldable pub handle_client_power_off : ℕ → Server h → Server h
  handle_client_power_off socket s =
      let closed = close_socket h f socket s in
      record closed { clients = delete_client_from_hashmap h f s.clients socket }

  -- `get_client_rnti` reads through the pointer without a test.
  unfoldable pub setup_found : Option ClientT → ℕ → Server h → Outcome h
  setup_found none socket s = crashed
  setup_found (some c) socket s = running (send h f socket (setup_message c.rnti) s)

  unfoldable pub send_rrc_setup : ℕ → Server h → Outcome h
  unfolding setup_found
  send_rrc_setup socket s = setup_found (get_client_by_socket h f s.clients socket) socket s

  -- The `switch`; other types have the `default` case.
  unfoldable pub dispatch : Option EMessageType → ℕ → SMessage → ℕ → Server h → Outcome h
  dispatch (some random_access_request) socket m now s =
      running (handle_random_access_request socket m now s)
  dispatch (some rrc_request) socket m now s = send_rrc_setup socket s
  dispatch (some ue_battery_low) socket m now s = handle_low_battery_request socket s
  dispatch (some ue_battery_high) socket m now s = handle_high_battery_request socket s
  dispatch (some pong) socket m now s = handle_pong socket now s
  dispatch (some ue_off) socket m now s = running (handle_client_power_off socket s)
  dispatch _ socket m now s = running s

  -- `now` is what `time` returns while the packet is handled.
  unfoldable pub parse_packet : (Entry → ℤ) → ℕ → Packet → ℕ → Server h → Outcome h
  parse_packet garbage socket (read_error interrupted) now s = error h f interrupted garbage s
  parse_packet garbage socket disconnected now s =
      let closed = close_socket h f socket s in
      running (record closed { clients = delete_client_from_hashmap h f s.clients socket })
  parse_packet garbage socket (arrived m) now s =
      dispatch (decode_type m.message_type) socket m now s

-- An event of `epoll_wait`: its descriptor, and what the kernel decides while it is handled.
pub record Ready : Type 0 where
  pub descriptor : ℕ
  pub accepted : Accepted
  pub interrupted : Bool
  pub packet : Packet
  pub now : ℕ

module _ (h : ClientMap) (f : Format) (garbage : Entry → ℤ) where
  unfoldable pub handle_event : Ready → Server h → Outcome h
  handle_event r s =
      if r.descriptor == s.socket
      then accept_client h f r.interrupted garbage r.accepted s
      else parse_packet h f garbage r.descriptor r.packet r.now s

  unfoldable pub and_then : (Server h → Outcome h) → Outcome h → Outcome h
  and_then k (running s) = k s
  and_then k (exited s) = exited s
  and_then k crashed = crashed

  -- The loop of `handle_connection` over the events that are ready.
  unfoldable pub handle_connection : List Ready → Server h → Outcome h
  unfolding handle_event and_then
  handle_connection [] s = running s
  handle_connection (r ∷ rs) s = and_then (handle_connection rs) (handle_event r s)
