-- ===== src/Ue/Rrc.antt =====
-- rrc.c: the RRC connection request, and the setup that is answered by a setup complete.
use lte.Base.{ℕ, ◌%◌, ◌^◌, ℤ, pos, negsuc, Bool, ◌==◌, eqb_ℤ, if◌then◌else◌, Option, none, some}
use lte.Message.{
  SMessage, SStmsi, type_code, rrc_request, rrc_setup, rrc_complete, mo_signaling, set_ue_identity,
  set_cause, set_complete,
}
use lte.Ue.Sender.{Sender, write_message, set_type}

-- `(int)pow(2, 32)` does not fit an `int`, so what the conversion gives is up to the compiler:
-- `limit` is its magnitude (a remainder does not depend on the divisor's sign).
unfoldable pub generate_ue_identity : ℕ → ℕ → ℕ → SStmsi
generate_ue_identity limit rand_mme rand_tmsi = record {
  mme_code = rand_mme % 2 ^ 8;
  mtmsi = rand_tmsi % limit;
}

-- `identity` is what the function argument stores.
unfoldable pub send_rrc_connection_request : Bool → SStmsi → Sender → Sender × ℤ
send_rrc_connection_request written identity s =
    let typed = set_type (type_code rrc_request) s in
    write_message written
      (record typed { message = set_cause mo_signaling (set_ue_identity identity typed.message) })

unfoldable pub send_rrc_setup_complete : Bool → Sender → Sender × ℤ
send_rrc_setup_complete written s =
    let typed = set_type (type_code rrc_complete) s in
    let filled = record typed { message = set_complete 234 15 typed.message } in
    if s.message.message_type == type_code rrc_setup
    then write_message written filled
    else (s, negsuc 0)

-- The buffer of the sender is `received`, which is also what `send_rrc_setup_complete` is given.
unfoldable pub receive_rrc_setup : Bool → Option SMessage → Sender → Sender × ℤ
receive_rrc_setup written none s = (s, negsuc 0)
receive_rrc_setup written (some got) s =
    let (s', status) = send_rrc_setup_complete written (record s { message = got }) in
    (s', if eqb_ℤ status (negsuc 0) then negsuc 0 else pos 0)
