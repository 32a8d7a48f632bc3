-- ===== src/System/Rach.antt =====
-- Random access: the preamble of random_access.c against the answer of packet_handler.c.
use lte.Base.{
  ℕ, ◌+◌, ◌*◌, ◌%◌, ◌⊎◌, ◌≤◌, ◌<◌, ◌≡◌, ◌↔◌, refl, pos, Bool, true, false, some, arith, length,
}
use lte.Message.{SMessage, get_ra_rnti, get_rapid}
use lte.Message.Bytes.{load-store_self}
use lte.Ue.Sender.{Sender}
use lte.Ue.Access.{generate_ra_rnti, send_prach_preamble, expected_rapid, receive_prach_response}
use lte.Enb.Packet.{extract_preamble_index, response_message}
use lte.Enb.Packet.Preamble.{extract_preamble_index_lem}
use lte.Enb.Packet.Effects.{rapid-response}

-- Both ends compute the index in the same way.
pub expected_rapid-eq : (r : ℕ) → expected_rapid r ≡ extract_preamble_index r
unfolding expected_rapid extract_preamble_index
expected_rapid-eq r = refl

pub extract_preamble_index-lt : (r : ℕ) → extract_preamble_index r < 256
unfolding extract_preamble_index
extract_preamble_index-lt r = omega arith

-- A response of the right type is accepted exactly when it carries the index of the preamble in
-- `message`; the result is then 0, and it is 1 otherwise.
pub receive_prach_response_iff :
    (got received message : SMessage)
    → let status = (receive_prach_response (some got) received message).2 in
      ((status ≡ pos 0)
        ↔ ((got.message_type ≡ 1) × (get_rapid got ≡ extract_preamble_index (get_ra_rnti message))))
      × ((status ≡ pos 0) ⊎ (status ≡ pos 1))
unfolding receive_prach_response
receive_prach_response_iff got received message =
    ground (arith, expected_rapid-eq (get_ra_rnti message))

-- What is stored as the preamble is what the eNodeB reads from the message.
pub get_ra_rnti-send :
    (written : Bool) (r : ℕ) (s : Sender)
    → 2 ≤ length s.message.message_value
    → r < 0x1_0000
    → get_ra_rnti (send_prach_preamble written r s).0.message ≡ r
unfolding send_prach_preamble
get_ra_rnti-send true r s room fits = load-store_self 2 0 r s.message.message_value room fits
get_ra_rnti-send false r s room fits = load-store_self 2 0 r s.message.message_value room fits

-- Every 16-bit preamble that a client sends, in a message with two bytes of room for it, is what
-- the eNodeB reads, and the response that the eNodeB sends to it, with the index of that preamble, is accepted: `receive_prach_response`
-- returns 0.
pub rach_succeeds :
    (r now : ℕ) (s : Sender) (received : SMessage)
    → 2 ≤ length s.message.message_value
    → r < 0x1_0000
    → let sent = (send_prach_preamble true r s).0.message in
      let answer = response_message (extract_preamble_index (get_ra_rnti sent)) now in
      (get_ra_rnti sent ≡ r) × ((receive_prach_response (some answer) received sent).2 ≡ pos 0)
rach_succeeds r now s received room fits =
    let sent = (send_prach_preamble true r s).0.message in
    let index = extract_preamble_index (get_ra_rnti sent) in
    (
      get_ra_rnti-send true r s room fits,
      (receive_prach_response_iff (response_message index now) received sent).0.1 (
        unfold response_message in refl,
        rapid-response index now (extract_preamble_index-lt (get_ra_rnti sent)),
      ),
    )

-- The generator gives a number from 1 to 60, whose two top bits are clear: every generated
-- preamble has the index 0, so that the index tells no two clients apart.
generated_index :
    (rand_t rand_f : ℕ)
    → let r = generate_ra_rnti rand_t rand_f in (1 ≤ r) × (r ≤ 60) × (extract_preamble_index r ≡ 0)
unfolding generate_ra_rnti
generated_index rand_t rand_f = (
  omega arith,
  omega arith,
  omega (arith, extract_preamble_index_lem (1 + rand_t % 10 + 10 * (rand_f % 6)) (omega arith)),
)
