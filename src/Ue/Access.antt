-- ===== src/Ue/Access.antt =====
-- random_access.c: the preamble and the answer to it; init_connection.c: the connection.
--
-- A message that `recv` delivers is `some`; -1 is `none` and leaves the buffer as it was. The
-- results of `rand`, `socket` and `connect` are arguments.
use lte.Base.{
  ℕ, ◌+◌, ◌*◌, ◌/◌, ◌%◌, ℤ, pos, negsuc, Bool, true, false, ◌==◌, if◌then◌else◌, bit_and, Option,
  none, some, promote8, promote16,
}
use lte.Message.{
  SMessage, type_code, random_access_request, random_access_response, get_ra_rnti, set_ra_rnti,
  get_rapid, set_c_rnti,
}
use lte.Ue.Sender.{Sender, write_message, set_type}

-- `rand` is called once for the sub-frame and once for the frequency; neither is negative.
unfoldable pub generate_ra_rnti : ℕ → ℕ → ℕ
generate_ra_rnti rand_t rand_f = 1 + rand_t % 10 + 10 * (rand_f % 6)

-- `ra_rnti_generator` is what the function argument stores.
unfoldable pub send_prach_preamble : Bool → ℕ → Sender → Sender × ℤ
send_prach_preamble written ra_rnti_generator s =
    let filled = record s { message = set_ra_rnti ra_rnti_generator s.message } in
    write_message written (set_type (type_code random_access_request) filled)

-- `(ra_rnti & 0b1100000000000000) >> 8` as an `int8_t`: the pattern of its low byte.
unfoldable pub expected_rapid : ℕ → ℕ
expected_rapid ra_rnti = bit_and (promote16 ra_rnti) 0b1100000000000000 / 256 % 256

-- The new `received` and `message`, and the result: -1, 1 or 0.
unfoldable pub receive_prach_response :
    Option SMessage → SMessage → SMessage → SMessage × SMessage × ℤ
receive_prach_response none received message = (received, message, negsuc 0)
receive_prach_response (some got) received message =
    let value_received = get_rapid got in
    let value_expected = expected_rapid (get_ra_rnti message) in
    let message' = set_c_rnti (bit_and (promote8 value_expected) 0b11000000 % 256) message in
    if got.message_type == type_code random_access_response
    then (got, message', if value_received == value_expected then pos 0 else pos 1)
    else (got, message, pos 1)

-- What `init_connection` does with the results of `socket` and `connect`: the result, and whether
-- it closes the socket that it opened.
pub record Connected : Type 0 where
  pub status : ℤ
  pub closes : Bool

unfoldable pub init_connection : Bool → Bool → Connected
init_connection socket_ok connect_ok =
    if socket_ok
    then (if connect_ok
        then record { status = pos 1; closes = false }
        else record { status = pos 0; closes = true })
    else record { status = pos 0; closes = false }
