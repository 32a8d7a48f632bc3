-- ===== src/Ue/Main/Connect.antt =====
-- Which of the calls while `main` connects decide whether it reaches its loop.
use lte.Base.{
  ℕ, ◌≡◌, arith, Bool, true, false, ◌&&◌, ◌==◌, Option, none, some, ◌<◌, Bool-cases, Option-cases,
  inl, inr,
}
use lte.Message.{SMessage, zero_message, get_rapid, get_ra_rnti}
use lte.Message.Bytes.{load-store_self}
use lte.Ue.Sender.{Sender}
use lte.Ue.Access.{send_prach_preamble, receive_prach_response, expected_rapid, init_connection}
use lte.Ue.Rrc.{send_rrc_connection_request}
use lte.Ue.Main.Connection.{
  Start, Handshake, Connection, established, request_setup, receive_response, connect_client,
}

-- A response of the right type with the index of the preamble that was sent.
abbrev pub answers : ℕ → Option SMessage → Bool
answers ra_rnti none = false
answers ra_rnti (some got) = got.message_type == 1 && get_rapid got == expected_rapid ra_rnti

abbrev pub reaches_loop : Connection → Bool
reaches_loop (established c) = true
reaches_loop _ = false

request_setup-reaches :
    (k : Start) (x : Handshake) → reaches_loop (request_setup k x) ≡ k.request_written
unfolding request_setup send_rrc_connection_request
request_setup-reaches k x = elim (Bool-cases k.request_written) [
  | inl written ↦ rw written
  | inr lost ↦ rw lost
]

receive_response-reaches :
    (k : Start) (s : Sender)
    → get_ra_rnti s.message ≡ k.ra_rnti
    → reaches_loop (receive_response k s) ≡ answers k.ra_rnti k.response && k.request_written
unfolding receive_response receive_prach_response
receive_response-reaches k s sent = elim (Option-cases k.response) [
  | inl lost ↦ rw lost
  | inr (got, arrives) ↦ elim (Bool-cases (got.message_type == 1)) [
    | inr other ↦ rw (arrives, other)
    | inl typed ↦ elim (Bool-cases (get_rapid got == expected_rapid (get_ra_rnti s.message))) [
      | inl same ↦
          let there : (get_rapid got == expected_rapid k.ra_rnti) ≡ true = rw sent at same in
          rw (arrives, typed, same, there)
            (request_setup-reaches (record k { response = some got }) _)
      | inr apart ↦
          let there : (get_rapid got == expected_rapid k.ra_rnti) ≡ false = rw sent at apart in
          rw (arrives, typed, apart, there)
    ]
  ]
]

-- `main` comes from its mutexes to its thread exactly when the socket connects, the preamble is written, the response
-- is of the right type and carries the index of the preamble, and the RRC request is written.
-- The answer to that request plays no part: the result of `receive_rrc_setup` is not looked at.
pub connect_client_lem :
    (k : Start)
    → k.ra_rnti < 0x1_0000
    → reaches_loop (connect_client k)
      ≡ k.socket_ok
        && (k.connect_ok
            && (k.preamble_written && (answers k.ra_rnti k.response && k.request_written)))
unfolding connect_client init_connection send_prach_preamble
connect_client_lem k fits = elim (Bool-cases k.socket_ok) [
  | inr closed ↦ rw closed
  | inl opens ↦ elim (Bool-cases k.connect_ok) [
    | inr refused ↦ rw (opens, refused)
    | inl connects ↦ elim (Bool-cases k.preamble_written) [
      | inr lost ↦ rw (opens, connects, lost)
      | inl written ↦
          rw (opens, connects, written)
            (receive_response-reaches
              (record k { socket_ok = true; connect_ok = true; preamble_written = true }) _
              (load-store_self 2 0 k.ra_rnti zero_message.message_value (omega arith) fits))
    ]
  ]
]
