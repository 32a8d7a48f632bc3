-- ===== src/Ue/Main/Soundness.antt =====
-- What holds of the client however the turns of its two threads fall.
use lte.Base.{ℕ, ◌≡◌, arith, Option, none, some, Bool-cases, inl, inr, List, [], ◌∷◌, negsuc, eqb_ℤ}
use lte.Ue.Battery.{initialize_battery_life}
use lte.Ue.Battery.Range.{InRange, update_battery-level, decrease_after_ping-level}
use lte.Ue.Cells.Bounds.{
  AreSignals, set_current_signal_event-AreSignals, initialize_cells-AreSignals,
}
use lte.Ue.Handle.{send_pong, receive_measurement_control_request}
use lte.Ue.Main.Shutdown.{message_type_of}
use lte.Ue.Rrc.{send_rrc_connection_request}
use lte.Message.{
  SMessage, EMessageType, decode_type, ping, data_start, data_block, data_end,
  measurement_control_request,
}
use lte.Ue.Main.{
  Client, Round, Turn, main_turn, battery_turn, interrupt, receive, handle_ping, handle_data,
  handle_data_end, handle_measurement, dispatch, settle, settle_result, main_round, goes_on,
  take_turn, run_result, run,
}
use lte.Ue.Main.Connection.Established.{IfEstablished, connect_client-established}
use lte.Ue.Main.Connection.{Start, Handshake, established, request_setup, connect_client}

-- A percentage of battery, and two signals in their range.
pub record IsSound (c : Client) : Type 0 where
  pub battery : InRange c.device.battery
  pub signals : AreSignals c.cells

-- No undefined behaviour is claimed here: a round that meets it satisfies this trivially.
abbrev IfDefined : Option Client → Type 0
IfDefined none = Unit
IfDefined (some c) = IsSound c

handle_ping-IsSound : (r : Round) (c : Client) → IsSound c → IsSound (handle_ping r c)
unfolding handle_ping
handle_ping-IsSound r c h =
    let answered = record c.device { sender = (send_pong r.answered c.device.sender).0 } in
    let level = decrease_after_ping-level r.noted answered h.battery in ground arith

handle_data-IsSound :
    (file : Option (List ℕ)) (c : Client) → IsSound c → IfDefined (handle_data file c)
unfolding handle_data
handle_data-IsSound none c h = tt
handle_data-IsSound (some file) c h = record { battery = h.battery; signals = h.signals }

handle_data_end-IsSound :
    (file : Option (List ℕ)) (c : Client) → IsSound c → IfDefined (handle_data_end file c)
unfolding handle_data_end
handle_data_end-IsSound none c h = tt
handle_data_end-IsSound (some file) c h = record { battery = h.battery; signals = h.signals }

handle_measurement-IsSound : (r : Round) (c : Client) → IsSound c → IsSound (handle_measurement r c)
unfolding handle_measurement receive_measurement_control_request
handle_measurement-IsSound r c h = record { battery = h.battery; signals = h.signals }

dispatch-IsSound :
    (t : Option EMessageType) (r : Round) (c : Client) → IsSound c → IfDefined (dispatch t r c)
unfolding dispatch
dispatch-IsSound (some ping) r c h = handle_ping-IsSound r c h
dispatch-IsSound (some data_start) r c h = record { battery = h.battery; signals = h.signals }
dispatch-IsSound (some data_block) r c h = handle_data-IsSound c.file_to_recv c h
dispatch-IsSound (some data_end) r c h = handle_data_end-IsSound c.file_to_recv c h
dispatch-IsSound (some measurement_control_request) r c h = handle_measurement-IsSound r c h
dispatch-IsSound _ r c h = h

receive-IsSound : (m : Option SMessage) (c : Client) → IsSound c → IsSound (receive m c)
unfolding receive
receive-IsSound none c h = h
receive-IsSound (some m) c h = record { battery = h.battery; signals = h.signals }

settle-IsSound : (r : Round) (o : Option Client) → IfDefined o → IfDefined (settle_result r o)
unfolding settle_result settle
settle-IsSound r none h = tt
settle-IsSound r (some c) h = record {
  battery = h.battery;
  signals = set_current_signal_event-AreSignals r.now r.later c.cells c.events h.signals;
}

main_round-IsSound : (r : Round) (c : Client) → IsSound c → IfDefined (main_round r c)
unfolding main_round
main_round-IsSound r c h =
    let got = receive r.incoming c in
    settle-IsSound r _
      (dispatch-IsSound (decode_type (message_type_of got)) r got (receive-IsSound r.incoming c h))

take_turn-IsSound : (t : Turn) (c : Client) → IsSound c → IfDefined (take_turn t c)
unfolding take_turn
take_turn-IsSound (main_turn r) c h = elim (Bool-cases (goes_on c)) [
  | inl on ↦ rw on (main_round-IsSound r c h)
  | inr off ↦ rw off h
]
take_turn-IsSound (battery_turn written now later) c h =
    let level = update_battery-level written now later c.device h.battery in ground arith
take_turn-IsSound interrupt c h = record { battery = h.battery; signals = h.signals }

run-keeps : (ts : List Turn) (c : Client) → IsSound c → IfDefined (run ts c)
unfolding run
run-keeps [] c h = h
run-keeps (t ∷ ts) c h = go (take_turn t c) (take_turn-IsSound t c h) (λ d. run-keeps ts d)
  where
    go :
        (o : Option Client)
        → IfDefined o
        → ((d : Client) → IsSound d → IfDefined (run ts d))
        → IfDefined (run_result (run ts) o)
    go none sound rest = tt
    go (some d) sound rest = rest d sound

request_setup-IsSound : (k : Start) (x : Handshake) → IfEstablished IsSound (request_setup k x)
unfolding request_setup initialize_battery_life
request_setup-IsSound k x =
    let status = (send_rrc_connection_request k.request_written k.identity x.sender).1 in
    elim (Bool-cases (eqb_ℤ status (negsuc 0))) [
      | inl lost ↦ rw lost tt
      | inr sent ↦ rw sent (record {
        battery = omega arith;
        signals = initialize_cells-AreSignals k.rand0 k.rand1 k.start_time;
      })
    ]

-- A client that has connected, after any turns of its two threads and whatever it receives: as
-- long as no undefined behaviour has been met, the battery level is from 0 to 100 and both
-- signals are in their range.
pub run-IsSound :
    (k : Start) (ts : List Turn) (c : Client) {c' : Client}
    → connect_client k ≡ established c
    → run ts c ≡ some c'
    → IsSound c'
run-IsSound k ts c up e = rw e at (
    run-keeps ts c (
      rw up at (
        connect_client-established IsSound k (λ sent. Unit) (λ x _. request_setup-IsSound k x) tt)))
