-- ===== src/Ue/Handle.antt =====
-- handle_messages.c and shutdown.c: the client's handlers of single messages.
use lte.Base.{ℕ, ◌+◌, ℤ, pos, Bool, true, false, ◌==◌, if◌then◌else◌, List, ◌++◌}
use lte.Message.{
  SMessage, SEvent, type_code, ping, pong, ue_off, enb_off, measurement_report, set_events,
  get_buffer, buffer_size,
}
use lte.Ue.Sender.{Sender, write_message, set_type}

unfoldable pub receive_ping : SMessage → ℤ
receive_ping m = if type_code ping == m.message_type then pos 0 else pos 1

unfoldable pub send_pong : Bool → Sender → Sender × ℤ
send_pong written s = write_message written (set_type (type_code pong) s)

unfoldable pub send_ue_off_signal : Bool → Sender → Sender × ℤ
send_ue_off_signal written s = write_message written (set_type (type_code ue_off) s)

-- It looks at nothing.
unfoldable pub receive_measurement_control_request : SMessage → Bool
receive_measurement_control_request m = true

unfoldable pub send_measurement_report : Bool → SEvent → Sender → Sender
send_measurement_report written current_event s =
    let typed = set_type (type_code measurement_report) s in
    (write_message written (record typed { message = set_events current_event typed.message })).0

-- The bytes written to the file so far, and the global `bytes_received`.
pub record Download : Type 0 where
  pub file : List ℕ
  pub bytes_received : ℕ

-- `fwrite` of the whole buffer, with no regard to where the data ends.
unfoldable pub download_data : SMessage → Download → Download
download_data m d = record {
  file = d.file ++ get_buffer m;
  bytes_received = d.bytes_received + buffer_size;
}

-- Whether the loop must end; the `close` that goes with it is counted in Ue.Main.Loops.
unfoldable pub check_for_shutdown : SMessage → Bool
check_for_shutdown m = if m.message_type == type_code enb_off then true else false
