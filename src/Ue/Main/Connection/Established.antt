-- ===== src/Ue/Main/Connection/Established.antt =====
-- What holds of the client that `main` reaches its loop with, by what holds after the last call.
use lte.Base.{Bool-cases, inl, inr, eqb_ℤ, pos, negsuc, List, []}
use lte.Message.{SMessage, zero_message}
use lte.Ue.Sender.{Sender}
use lte.Ue.Access.{send_prach_preamble, receive_prach_response, init_connection}
use lte.Ue.Main.{Client}
use lte.Ue.Main.Connection.{
  Start, Handshake, Connection, established, request_setup, receive_response, connect_client,
}

-- The globals at the start.
abbrev pub idle : Sender
idle = record { message = zero_message; wire = [] }

module _ (P : Client → Type 0) where
  abbrev pub IfEstablished : Connection → Type 0
  IfEstablished (established c) = P c
  IfEstablished _ = Unit

  -- `Q` is what is known of the messages written so far.
  module _ (k : Start) (Q : List SMessage → Type 0)
      (after : (x : Handshake) → Q x.sender.wire → IfEstablished (request_setup k x)) where
    receive_response-established : (s : Sender) → Q s.wire → IfEstablished (receive_response k s)
    unfolding receive_response
    receive_response-established s sent =
        let status = (receive_prach_response k.response zero_message s.message).2 in
        elim (Bool-cases (eqb_ℤ status (negsuc 0))) [
          | inl lost ↦ rw lost tt
          | inr here ↦ rw here (elim (Bool-cases (eqb_ℤ status (pos 1))) [
            | inl refused ↦ rw refused tt
            | inr good ↦ rw good (after _ sent)
          ])
        ]

    pub connect_client-established :
        Q (send_prach_preamble k.preamble_written k.ra_rnti idle).0.wire
        → IfEstablished (connect_client k)
    unfolding connect_client
    connect_client-established wrote =
        let status = (send_prach_preamble k.preamble_written k.ra_rnti idle).1 in
        elim (Bool-cases (eqb_ℤ (init_connection k.socket_ok k.connect_ok).status (pos 0))) [
          | inl down ↦ rw down tt
          | inr up ↦ rw up (elim (Bool-cases (eqb_ℤ status (negsuc 0))) [
            | inl lost ↦ rw lost tt
            | inr sent ↦ rw sent (receive_response-established _ wrote)
          ])
        ]
