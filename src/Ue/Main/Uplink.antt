-- ===== src/Ue/Main/Uplink.antt =====
-- What a client in its loop writes: pongs, battery notices and measurement reports, and no other
-- messages.
use lte.Base.{ℕ, ◌≡◌, ◌⊎◌, refl, pos, Bool-cases, inl, inr, Option, none, some, List, arith}
use lte.Message.{
  SMessage, EMessageType, decode_type, ping, data_start, data_block, data_end,
  measurement_control_request, set_events,
}
use lte.Message.Types.{TypesAre}
use lte.Ue.Sender.{write_message-TypesAre, set_type}
use lte.Ue.Battery.{update_battery, decrease_after_ping}
use lte.Ue.Battery.Written.{check_battery_status-TypesAre}
use lte.Ue.Handle.{send_pong, send_measurement_report, receive_measurement_control_request}
use lte.Ue.Main.{
  Client, Round, Turn, main_turn, battery_turn, interrupt, receive, handle_ping, handle_data,
  handle_data_end, handle_measurement, dispatch, settle, settle_result, main_round, goes_on,
  take_turn,
}

abbrev pub IsUplink : ℕ → Type 0
IsUplink n = (n ≡ 5) ⊎ (n ≡ 6) ⊎ (n ≡ 8) ⊎ (n ≡ 12)

abbrev pub AreUplink : List SMessage → Type 0
AreUplink ms = TypesAre IsUplink ms

-- `P` holds of the types of what a client in its loop writes.
module _ (P : ℕ → Type 0) (low : P 5) (high : P 6) (pong : P 8) (report : P 12) where
  -- The wire of a client that has met no undefined behaviour.
  abbrev Writes : Option Client → Type 0
  Writes none = Unit
  Writes (some c) = TypesAre P c.device.sender.wire

  handle_ping-Writes : (r : Round) (c : Client) → Writes (some c) → Writes (some (handle_ping r c))
  unfolding handle_ping send_pong decrease_after_ping
  handle_ping-Writes r c all =
      let ponged = write_message-TypesAre P r.answered (set_type 8 c.device.sender) all pong in
      let noted =
        check_battery_status-TypesAre P r.noted (pos 2)
          (record c.device { sender = (send_pong r.answered c.device.sender).0 }) low high ponged in
      ground (arith, ponged, noted)

  handle_measurement-Writes :
      (r : Round) (c : Client) → Writes (some c) → Writes (some (handle_measurement r c))
  unfolding handle_measurement receive_measurement_control_request send_measurement_report
  handle_measurement-Writes r c all =
      write_message-TypesAre P r.answered
        (record c.device.sender {
          message = set_events c.cells.current_event (set_type 12 c.device.sender).message;
        })
        all report

  handle_data-Writes :
      (o : Option (List ℕ)) (c : Client) → Writes (some c) → Writes (handle_data o c)
  unfolding handle_data
  handle_data-Writes none c all = tt
  handle_data-Writes (some file) c all = all

  handle_data_end-Writes :
      (o : Option (List ℕ)) (c : Client) → Writes (some c) → Writes (handle_data_end o c)
  unfolding handle_data_end
  handle_data_end-Writes none c all = tt
  handle_data_end-Writes (some file) c all = all

  dispatch-Writes :
      (t : Option EMessageType) (r : Round) (c : Client) → Writes (some c) → Writes (dispatch t r c)
  unfolding dispatch
  dispatch-Writes (some ping) r c all = handle_ping-Writes r c all
  dispatch-Writes (some data_start) r c all = all
  dispatch-Writes (some data_block) r c all = handle_data-Writes c.file_to_recv c all
  dispatch-Writes (some data_end) r c all = handle_data_end-Writes c.file_to_recv c all
  dispatch-Writes (some measurement_control_request) r c all = handle_measurement-Writes r c all
  dispatch-Writes _ r c all = all

  settle-Writes : (r : Round) (o : Option Client) → Writes o → Writes (settle_result r o)
  unfolding settle_result settle
  settle-Writes r none all = tt
  settle-Writes r (some c) all = all

  receive-Writes :
      (o : Option SMessage) (c : Client) → Writes (some c) → Writes (some (receive o c))
  unfolding receive
  receive-Writes none c all = all
  receive-Writes (some m) c all = all

  turn-Writes : (t : Turn) (c : Client) → Writes (some c) → Writes (take_turn t c)
  unfolding take_turn main_round update_battery
  turn-Writes (main_turn r) c all = elim (Bool-cases (goes_on c)) [
    | inr off ↦ rw off all
    | inl on ↦
        let got = receive r.incoming c in
        rw on (
          settle-Writes r _ (
            dispatch-Writes (decode_type got.device.sender.message.message_type) r got
              (receive-Writes r.incoming c all)))
  ]
  turn-Writes (battery_turn written now later) c all = elim (Bool-cases (goes_on c)) [
    | inr off ↦ rw off all
    | inl on ↦ rw on (check_battery_status-TypesAre P written (pos 12) c.device low high all)
  ]
  turn-Writes interrupt c all = all

  -- A turn of a client adds messages of these types to what it has written, and no others.
  pub take_turn-TypesAre :
      (t : Turn) (c : Client) {c' : Client}
      → TypesAre P c.device.sender.wire
      → take_turn t c ≡ some c'
      → TypesAre P c'.device.sender.wire
  take_turn-TypesAre t c all e = rw e at (turn-Writes t c all)

-- A turn of a client adds pongs, battery notices and measurement reports to what it has written,
-- and no other messages.
pub take_turn-AreUplink :
    (t : Turn) (c : Client) {c' : Client}
    → AreUplink c.device.sender.wire
    → take_turn t c ≡ some c'
    → AreUplink c'.device.sender.wire
take_turn-AreUplink t c all e =
    take_turn-TypesAre IsUplink (inl refl) (inr (inl refl)) (inr (inr (inl refl)))
      (inr (inr (inr refl))) t c all e
