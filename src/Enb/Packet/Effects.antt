-- ===== src/Enb/Packet/Effects.antt =====
-- What the handlers do for the client that a packet comes from.
use lte.Base.{ℕ, ◌<◌, ◌≡◌, refl, ℤ, pos, Option, none, some, arith, [], ◌∷◌, ◌++◌, promote16, ◌∙◌}
use lte.Message.{SMessage, get_config_rnti, get_rapid, get_ra_rnti}
use lte.Enb.ClientObject.{ClientT, ClientMap, Format, Entry, ok}
use lte.Enb.ClientObject.Laws
use lte.Enb.Server.{
  Server, running, send, close_socket, update_found, update_client_by_ra_rnti_data,
}
use lte.Enb.Packet.{
  disconnected, arrived, parse_packet, dispatch, extract_preamble_index, response_message,
  setup_message, handle_random_access_request, handle_client_power_off, send_rrc_setup, setup_found,
}
use lte.Enb.Packet.Frame.{found}

-- The index that the client reads from the response.
pub rapid-response : (index now : ℕ) → index < 256 → get_rapid (response_message index now) ≡ index
unfolding response_message
rapid-response index now fits = omega arith

-- The `RNTI` that the client reads from the setup, as the pattern of an `int`.
pub config_rnti-setup :
    (rnti : ℕ) → rnti < 0x1_0000 → get_config_rnti (setup_message rnti) ≡ promote16 rnti
unfolding setup_message
config_rnti-setup rnti fits = ground arith

module _ (h : ClientMap) (f : Format) where
  -- The record of a client after its random access request.
  abbrev pub admitted : ℕ → ℕ → ClientT → ClientT
  admitted ra_rnti now c = record c {
    preamble_index = extract_preamble_index ra_rnti;
    last_activity = pos now;
    first_connection_timestamp = pos now;
    rnti = ra_rnti;
    battery_state = ok;
  }

  update_found-some :
      (o : Option ClientT) (socket now r : ℕ) (s : Server h) {c : ClientT}
      → o ≡ some c
      → found h f (update_found h f o socket (extract_preamble_index r) now r s) socket
        ≡ some (admitted r now c)
  unfolding update_found
  update_found-some none socket now r s e = cc
  update_found-some (some d) socket now r s e =
      Laws.get-put_self h f s.clients socket (admitted r now d) ∙ cc

  update_found-sent :
      (o : Option ClientT) (socket index now r : ℕ) (s : Server h)
      → (update_found h f o socket index now r s).sent ≡ s.sent
  unfolding update_found
  update_found-sent none socket index now r s = refl
  update_found-sent (some d) socket index now r s = refl

  -- A random access request from a client in the map is answered with one message, which carries
  -- the preamble index of its `ra_rnti`, and the client's record gets the index, the `ra_rnti`,
  -- the time and a good battery.
  pub random_access_lem :
      (socket : ℕ) (m : SMessage) (now : ℕ) (s : Server h) {c : ClientT}
      → found h f s socket ≡ some c
      → let t = handle_random_access_request h f socket m now s in
        let r = get_ra_rnti m in
        (found h f t socket ≡ some (admitted r now c))
        × (t.sent ≡ s.sent ++ (socket, response_message (extract_preamble_index r) now) ∷ [])
  unfolding handle_random_access_request update_client_by_ra_rnti_data send
  random_access_lem socket m now s known =
      (update_found-some _ socket now (get_ra_rnti m) _ known, update_found-sent _ socket _ now _ _)

  setup-some :
      (o : Option ClientT) (socket : ℕ) (s : Server h) {c : ClientT}
      → o ≡ some c
      → setup_found h f o socket s ≡ running (send h f socket (setup_message c.rnti) s)
  unfolding setup_found
  setup-some none socket s e = cc
  setup-some (some d) socket s e = ground arith

  -- After a random access request with a 16-bit `ra_rnti`, the same client's RRC request is
  -- answered with one setup message whose `RNTI` is that `ra_rnti`, promoted to `int`.
  pub rrc_setup_lem :
      (socket : ℕ) (m : SMessage) (now : ℕ) (s : Server h) {c : ClientT}
      → found h f s socket ≡ some c
      → get_ra_rnti m < 0x1_0000
      → let t = handle_random_access_request h f socket m now s in
        (send_rrc_setup h f socket t ≡ running (send h f socket (setup_message (get_ra_rnti m)) t))
        × (get_config_rnti (setup_message (get_ra_rnti m)) ≡ promote16 (get_ra_rnti m))
  unfolding send_rrc_setup
  rrc_setup_lem socket m now s known fits =
      let t = handle_random_access_request h f socket m now s in
      (
        setup-some (found h f t socket) socket t (random_access_lem socket m now s known).0,
        config_rnti-setup (get_ra_rnti m) fits,
      )

  -- A client that says `ue_off` and one whose stream has ended are treated alike: the server goes
  -- on, has closed the socket, and has no client for it.
  leave_lem :
      (garbage : Entry → ℤ) (socket : ℕ) (m : SMessage) (now : ℕ) (s : Server h)
      → m.message_type ≡ 9
      → (parse_packet h f garbage socket (arrived m) now s
          ≡ parse_packet h f garbage socket disconnected now s)
        × (t : Server h) × (parse_packet h f garbage socket disconnected now s ≡ running t)
        × (found h f t socket ≡ none)
        × (t.closed ≡ s.closed ++ socket ∷ [])
  unfolding parse_packet dispatch handle_client_power_off close_socket
  leave_lem garbage socket m now s e =
      (rw e refl, _, refl, Laws.get-delete_self h f s.clients socket, refl)
