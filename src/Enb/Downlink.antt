-- ===== src/Enb/Downlink.antt =====
-- The types of the messages that the eNodeB sends, operation by operation.
use lte.Base.{
  ℕ, ◌≡◌, refl, Bool, Bool-cases, inl, inr, Option, none, some, List, [], ◌∷◌, ◌++◌, map,
}
use lte.Message.{
  SMessage, EMessageType, random_access_request, rrc_request, ue_battery_low, ue_battery_high, pong,
  ue_off,
}
use lte.Enb.ClientObject.{ClientT, ClientMap, Format, Entry}
use lte.Enb.Server.{
  Server, Outcome, running, exited, crashed, send, close_socket, update_found,
  update_client_by_ra_rnti_data,
}
use lte.Enb.Packet.{
  response_message, setup_message, update_client, setup_found, send_random_access_response,
  handle_random_access_request, send_rrc_setup, handle_low_battery_request,
  handle_high_battery_request, handle_pong, handle_client_power_off, dispatch,
}
use lte.Enb.Ping.Rounds.{messages}
use lte.Enb.Transfer.{Transfer, sent, failed, stuck}
use lte.Enb.Transfer.Types.{SentAre, broadcast_sample-SentAre}
use lte.Enb.Transfer.Clients.{
  Delivery, Ending, returned, exit_success, exit_failure, out_of_fuel, transfer_to,
  transfer_clients, after_transfer,
}
use lte.Message.Types.{TypesAre, IsDownlink}

-- All of what was sent, to whomever.
abbrev pub AreDownlink : List (ℕ × SMessage) → Type 0
AreDownlink [] = Unit
AreDownlink (e ∷ es) = IsDownlink e.1.message_type × AreDownlink es

pub AreDownlink-append :
    (xs ys : List (ℕ × SMessage)) → AreDownlink xs → AreDownlink ys → AreDownlink (xs ++ ys)
AreDownlink-append [] ys all more = more
AreDownlink-append (x ∷ xs) ys all more = (all.0, AreDownlink-append xs ys all.1 more)

pub messages-AreDownlink :
    (test : Entry → Bool) (m : SMessage) (es : List Entry)
    → IsDownlink m.message_type
    → AreDownlink (messages test m es)
messages-AreDownlink test m [] down = tt
messages-AreDownlink test m (e ∷ es) down = elim (Bool-cases (test e)) [
  | inl chosen ↦ rw chosen (down, messages-AreDownlink test m es down)
  | inr passed ↦ rw passed (messages-AreDownlink test m es down)
]

module _ (h : ClientMap) (f : Format) where
  abbrev pub OutcomeDown : Outcome h → Type 0
  OutcomeDown (running t) = AreDownlink t.sent
  OutcomeDown (exited t) = AreDownlink t.sent
  OutcomeDown crashed = Unit

  send-AreDownlink :
      (socket : ℕ) (m : SMessage) (s : Server h)
      → IsDownlink m.message_type
      → AreDownlink s.sent
      → AreDownlink (send h f socket m s).sent
  unfolding send
  send-AreDownlink socket m s down all = AreDownlink-append s.sent _ all (down, tt)

  update_client-Down :
      (o : Option ClientT) (change : ClientT → ClientT) (socket : ℕ) (s : Server h)
      → AreDownlink s.sent
      → OutcomeDown (update_client h f o change socket s)
  unfolding update_client
  update_client-Down none change socket s all = tt
  update_client-Down (some c) change socket s all = all

  update_found-sent :
      (o : Option ClientT) (socket index now rnti : ℕ) (s : Server h)
      → (update_found h f o socket index now rnti s).sent ≡ s.sent
  unfolding update_found
  update_found-sent none socket index now rnti s = refl
  update_found-sent (some c) socket index now rnti s = refl

  setup-Down :
      (o : Option ClientT) (socket : ℕ) (s : Server h)
      → AreDownlink s.sent
      → OutcomeDown (setup_found h f o socket s)
  unfolding setup_found setup_message
  setup-Down none socket s all = tt
  setup-Down (some c) socket s all = send-AreDownlink socket _ s refl all

  random_access-Down :
      (socket : ℕ) (m : SMessage) (now : ℕ) (s : Server h)
      → AreDownlink s.sent
      → AreDownlink (handle_random_access_request h f socket m now s).sent
  unfolding handle_random_access_request update_client_by_ra_rnti_data send_random_access_response
      response_message
  random_access-Down socket m now s all =
      rw (update_found-sent _ socket _ now _ _) (send-AreDownlink socket _ s refl all)

  pub dispatch-Down :
      (t : Option EMessageType) (socket : ℕ) (m : SMessage) (now : ℕ) (s : Server h)
      → AreDownlink s.sent
      → OutcomeDown (dispatch h f t socket m now s)
  unfolding dispatch send_rrc_setup handle_low_battery_request handle_high_battery_request
      handle_pong handle_client_power_off close_socket
  dispatch-Down (some random_access_request) socket m now s all =
      random_access-Down socket m now s all
  dispatch-Down (some rrc_request) socket m now s all = setup-Down _ socket s all
  dispatch-Down (some ue_battery_low) socket m now s all = update_client-Down _ _ socket s all
  dispatch-Down (some ue_battery_high) socket m now s all = update_client-Down _ _ socket s all
  dispatch-Down (some pong) socket m now s all = update_client-Down _ _ socket s all
  dispatch-Down (some ue_off) socket m now s all = all
  dispatch-Down _ socket m now s all = all

module _ (h : ClientMap) where
  abbrev pub EndingDown : Ending h → Type 0
  EndingDown (returned t) = AreDownlink t.sent
  EndingDown (exit_success t) = AreDownlink t.sent
  EndingDown (exit_failure t) = AreDownlink t.sent
  EndingDown out_of_fuel = Unit

  to_one-AreDownlink :
      (socket : ℕ) (ms : List SMessage)
      → TypesAre IsDownlink ms
      → AreDownlink (map (λ m. (socket, m)) ms)
  to_one-AreDownlink socket [] all = tt
  to_one-AreDownlink socket (m ∷ ms) all = (all.0, to_one-AreDownlink socket ms all.1)

  after_transfer-Down :
      (socket : ℕ) (t : Transfer) (next : Server h → Ending h) (s : Server h)
      → SentAre IsDownlink refl refl refl t
      → AreDownlink s.sent
      → ((x : Server h) → AreDownlink x.sent → EndingDown (next x))
      → EndingDown (after_transfer h socket t next s)
  unfolding after_transfer
  after_transfer-Down socket (sent ms n) next s down all go_on =
      go_on _ (AreDownlink-append s.sent _ all (to_one-AreDownlink socket ms down))
  after_transfer-Down socket (failed ms) next s down all go_on =
      AreDownlink-append s.sent _ all (to_one-AreDownlink socket ms down)
  after_transfer-Down socket stuck next s down all go_on = tt

  pub transfer_clients-Down :
      (deliver : Entry → Delivery) (memory : List ℕ) (es : List Entry) (s : Server h)
      → AreDownlink s.sent
      → EndingDown (transfer_clients h deliver memory es s)
  unfolding transfer_clients
  transfer_clients-Down deliver memory [] s all = all
  transfer_clients-Down deliver memory ((k, c) ∷ es) s all =
      after_transfer-Down c.socket (transfer_to h deliver memory (k, c)) _ s
        (broadcast_sample-SentAre IsDownlink refl refl refl _ _ _ _ _ _) all
        (λ x down. transfer_clients-Down deliver memory es x down)
