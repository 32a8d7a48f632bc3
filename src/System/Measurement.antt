-- ===== src/System/Measurement.antt =====
-- A measurement control request on its way to a client, the report on its way back, and what
-- becomes of it.
use lte.Base.{ℕ, ◌<◌, ◌^◌, ◌≡◌, refl, true, some, [], ◌∷◌, ◌++◌, arith}
use lte.Message.{
  SMessage, decode_type, SEvent, a1, a2, a3, a4, def, get_events, event_code, zero_message,
}
use lte.Message.Bytes.{load-store_self}
use lte.Ue.Main.{Client, Round, main_turn, goes_on, take_turn}
use lte.Ue.Main.Report.{report_of, request_answered}
use lte.Enb.ClientObject.{ClientT, ClientMap, Format}
use lte.Enb.Server.{Server, running, typed_message}
use lte.Enb.Packet.{dispatch}
use lte.Enb.Packet.Frame.{found}
use lte.Enb.Consistent.{IsConsistent}
use lte.Enb.Ping.{request_measurements}
use lte.Enb.Ping.Rounds.{messages, broadcasts_lem}
use lte.System.Network.{inbox}
use lte.System.Network.Inbox.{inbox-append}
use lte.System.Network.Once.{round_once}

event-fits : (e : SEvent) → event_code e < 256 ^ 4
event-fits a1 = omega arith
event-fits a2 = omega arith
event-fits a3 = omega arith
event-fits a4 = omega arith
event-fits def = omega arith

module _ (h : ClientMap) (f : Format) where
  -- A round of measurement control requests sends one to a client that has a record, where each
  -- client is stored under its own socket; if the client is in its loop it answers with a report
  -- of the event that its cells show, if the `write` succeeds; and the eNodeB, whatever its state
  -- is when it reads the report, drops it.
  pub report_is_dropped :
      (x z : Server h) (socket now : ℕ) (c : ClientT) (r : Round) (u : Client)
      → IsConsistent h f x
      → found h f x socket ≡ some c
      → goes_on u ≡ true
      → r.incoming ≡ some (typed_message 11)
      → r.answered ≡ true
      → (inbox socket (request_measurements h f x).sent
          ≡ inbox socket x.sent ++ typed_message 11 ∷ [])
        × (v : Client) × (m : SMessage) × (take_turn (main_turn r) u ≡ some v)
        × (v.device.sender.wire ≡ u.device.sender.wire ++ m ∷ [])
        × (get_events m ≡ event_code u.cells.current_event)
        × (dispatch h f (decode_type m.message_type) socket m now z ≡ running z)
  unfolding dispatch
  report_is_dropped x z socket now c r u old here on got told =
      let (v, moves, writes) = request_answered r u (typed_message 11) on got refl told in
      (
        rw
            (
              (broadcasts_lem h f x).0,
              inbox-append socket x.sent
                  (messages (λ e. true) (typed_message 11) (h.entries x.clients)),
              round_once h f x socket c (λ e. true) (typed_message 11) old here refl,
            )
            refl,
        v,
        report_of u (typed_message 11),
        moves,
        writes,
        load-store_self 4 0 (event_code u.cells.current_event) zero_message.message_value
            (omega arith) (event-fits u.cells.current_event),
        refl,
      )
