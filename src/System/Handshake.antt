-- ===== src/System/Handshake.antt =====
-- The whole connection: `main` of the client up to its loop, against the handlers of the eNodeB.
use lte.Base.{ℕ, ◌<◌, ◌≡◌, refl, pos, true, some, List, [], ◌∷◌, ◌++◌, map, arith}
use lte.Message.{SMessage, zero_message}
use lte.Ue.Sender.{Sender}
use lte.Ue.Access.{send_prach_preamble, receive_prach_response, init_connection}
use lte.Ue.Rrc.{send_rrc_connection_request, send_rrc_setup_complete, receive_rrc_setup}
use lte.Ue.Main.{Client}
use lte.Ue.Main.Connection.{
  Start, Connection, established, Handshake, request_setup, receive_response, connect_client,
}
use lte.Enb.ClientObject.{ClientT, ClientMap, Format}
use lte.Enb.Server.{Server, running, send}
use lte.Enb.Packet.{
  extract_preamble_index, response_message, setup_message, handle_random_access_request,
  send_rrc_setup,
}
use lte.Enb.Packet.Frame.{found}
use lte.Enb.Packet.Effects.{admitted, random_access_lem, rrc_setup_lem}
use lte.System.Rach.{rach_succeeds}

abbrev pub blank : Sender
blank = record { message = zero_message; wire = [] }

-- The client's first message.
abbrev pub preamble_message : ℕ → SMessage
preamble_message r = (send_prach_preamble true r blank).0.message

abbrev pub types_sent : Client → List ℕ
types_sent c = map (λ m. m.message_type) c.device.sender.wire

-- The client connects, every call of the kernel succeeds, and it receives these two messages.
pub record IsPrompt (k : Start) (response setup : SMessage) : Type 0 where
  pub opens : k.socket_ok ≡ true
  pub connects : k.connect_ok ≡ true
  pub preamble : k.preamble_written ≡ true
  pub request : k.request_written ≡ true
  pub complete : k.complete_written ≡ true
  pub first : k.response ≡ some response
  pub second : k.setup ≡ some setup

-- The client is in its loop, has sent its three messages in order, and has answered the setup.
abbrev pub IsUp : Connection → Type 0
IsUp (established c) = (types_sent c ≡ 0 ∷ 2 ∷ 4 ∷ []) × (c.received.message_type ≡ 4)
IsUp _ = ⊥

request_setup-IsUp :
    (k : Start) (m response setup : SMessage) (x : Handshake)
    → IsPrompt k response setup
    → setup.message_type ≡ 3
    → x.sender.wire ≡ m ∷ []
    → m.message_type ≡ 0
    → IsUp (request_setup k x)
unfolding request_setup receive_rrc_setup send_rrc_setup_complete send_rrc_connection_request
request_setup-IsUp k m response setup x prompt type wire first =
    rw (prompt.request, prompt.second, prompt.complete, type, wire, first) (refl, refl)

connect_client-IsUp :
    (k : Start) (response setup : SMessage)
    → IsPrompt k response setup
    → setup.message_type ≡ 3
    → (receive_prach_response (some response) zero_message (preamble_message k.ra_rnti)).2 ≡ pos 0
    → IsUp (connect_client k)
unfolding connect_client receive_response init_connection send_prach_preamble
connect_client-IsUp k response setup prompt type accepted =
    rw (prompt.opens, prompt.connects, prompt.preamble, prompt.first, accepted)
      (request_setup-IsUp k _ response setup _ prompt type refl refl)

module _ (h : ClientMap) (f : Format) where
  -- A client whose calls all succeed, and which receives what the eNodeB sends: its preamble is
  -- answered with the response and enters its record, its RRC request is answered with the setup,
  -- and with these two messages `main` reaches its loop, after sending a random access request,
  -- an RRC request and an RRC complete.
  pub handshake_lem :
      (socket now : ℕ) (s : Server h) (k : Start) {c : ClientT}
      → found h f s socket ≡ some c
      → k.ra_rnti < 0x1_0000
      → IsPrompt k
          (response_message (extract_preamble_index k.ra_rnti) now)
          (setup_message k.ra_rnti)
      → let response = response_message (extract_preamble_index k.ra_rnti) now in
        let setup = setup_message k.ra_rnti in
        let t = handle_random_access_request h f socket (preamble_message k.ra_rnti) now s in
        (t.sent ≡ s.sent ++ (socket, response) ∷ [])
        × (found h f t socket ≡ some (admitted h f k.ra_rnti now c))
        × (send_rrc_setup h f socket t ≡ running (send h f socket setup t))
        × IsUp (connect_client k)
  handshake_lem socket now s k known fits prompt =
      let m = preamble_message k.ra_rnti in
      let (read, accepted) = rach_succeeds k.ra_rnti now blank zero_message (omega arith) fits in
      let (record_kept, answered) = random_access_lem h f socket m now s known in
      let setup = rrc_setup_lem h f socket m now s known (rw read fits) in
      (
        rw read at answered,
        rw read at record_kept,
        rw read at setup.0,
        connect_client-IsUp k _ _ prompt (unfold setup_message in refl) (rw read at accepted),
      )
