-- ===== src/Ue/Main/Report.antt =====
-- How a client in its loop answers a measurement control request.
use lte.Base.{◌≡◌, true, some, [], ◌∷◌, ◌++◌}
use lte.Message.{SMessage, set_events}
use lte.Ue.Handle.{receive_measurement_control_request, send_measurement_report}
use lte.Ue.Main.{
  Client, Round, main_turn, receive, handle_measurement, dispatch, settle, settle_result,
  main_round, goes_on, take_turn,
}

-- The report that a client sends in answer to `m`.
abbrev pub report_of : Client → SMessage → SMessage
report_of u m = set_events u.cells.current_event (record m { message_type = 12 })

pub request_answered :
    (r : Round) (u : Client) (m : SMessage)
    → goes_on u ≡ true
    → r.incoming ≡ some m
    → m.message_type ≡ 11
    → r.answered ≡ true
    → (v : Client) × (take_turn (main_turn r) u ≡ some v)
      × (v.device.sender.wire ≡ u.device.sender.wire ++ report_of u m ∷ [])
unfolding take_turn main_round dispatch handle_measurement receive settle settle_result
    send_measurement_report receive_measurement_control_request
request_answered r u m on got type told =
    (settle r (handle_measurement r (receive (some m) u)), rw (on, got, type), rw told)
