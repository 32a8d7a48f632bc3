-- ===== src/System/Network/Others.antt =====
-- What the other clients of the eNodeB leave alone.
use lte.Base.{
  ℕ, ℤ, ◌≡◌, ◌≢◌, refl, ap, ◌∙◌, ◌==◌, ==_iff, Bool, true, Bool-cases, inl, inr, Option, none, some,
  List, [], ◌∷◌, ◌++◌, map, arith,
}
use mathlib.Core.List.{append-nil}
use lte.Message.{
  SMessage, EMessageType, decode_type, random_access_request, rrc_request, ue_battery_low,
  ue_battery_high, pong, ue_off,
}
use lte.Enb.ClientObject.{ClientT, ClientMap, Format, Entry}
use lte.Enb.Server.{Server, Outcome, running, exited, crashed, Accepted, accept_client}
use lte.Enb.Packet.{disconnected, dispatch, parse_packet}
use lte.Enb.Packet.Frame.{found}
use lte.Enb.Directory.{Directory, assign, keeps, fate, settle_fate}
use lte.Enb.Directory.Refine.{view, view_outcome, dispatch-view, packet-view, accept-view}
use lte.System.Network.{inbox}
use lte.System.Network.Inbox.{inbox-append}

inbox-other :
    (socket d : ℕ) (ms : List SMessage) → d ≢ socket → inbox socket (map (λ m. (d, m)) ms) ≡ []
inbox-other socket d [] ne = refl
inbox-other socket d (m ∷ ms) ne = elim (Bool-cases (d == socket)) [
  | inl same ↦ absurd (ne ((==_iff d socket).0 same))
  | inr apart ↦ rw apart (inbox-other socket d ms ne)
]

-- Who has a record is never the cause of a fault.
fate-keeps :
    (t : Option EMessageType) (m : SMessage) (now : ℕ) (c : ClientT)
    → (o : Option ClientT) × (ms : List SMessage) × (fate t m now (some c) ≡ keeps o ms)
fate-keeps (some random_access_request) m now c = (_, _, refl)
fate-keeps (some rrc_request) m now c = (_, _, refl)
fate-keeps (some ue_battery_low) m now c = (_, _, refl)
fate-keeps (some ue_battery_high) m now c = (_, _, refl)
fate-keeps (some pong) m now c = (_, _, refl)
fate-keeps (some ue_off) m now c = (_, _, refl)
fate-keeps _ m now c = (_, _, refl)

module _ (h : ClientMap) (f : Format) (socket : ℕ) (x : Server h) where
  -- The server goes on with the record for this socket and what is under way to it.
  abbrev pub Spares : Outcome h → Type 0
  Spares o =
      (y : Server h) × (o ≡ running y)
      × (found h f y socket ≡ found h f x socket)
      × (inbox socket y.sent ≡ inbox socket x.sent)

  settled-Spares :
      (o : Outcome h) (d : ℕ) (c : Option ClientT) (ms : List SMessage)
      → d ≢ socket
      → view_outcome h f o ≡ settle_fate d (keeps c ms) (view h f x)
      → Spares o
  settled-Spares (running y) d c ms ne e =
      let after : Directory = record {
        listening = x.socket;
        clients = assign (view h f x).clients d c;
        replies = x.sent ++ map (λ m. (d, m)) ms;
      } in
      let same : view h f y ≡ after = cc in
      let clients : found h f y socket ≡ assign (view h f x).clients d c socket =
        ap (λ (r : Directory). r.clients socket) same in
      let replies : y.sent ≡ x.sent ++ map (λ m. (d, m)) ms =
        ap (λ (r : Directory). r.replies) same in
      (
        y,
        refl,
        ground arith,
        rw (replies, inbox-append socket x.sent (map (λ m. (d, m)) ms), inbox-other socket d ms ne)
            (append-nil _),
      )
  settled-Spares (exited y) d c ms ne e = cc
  settled-Spares crashed d c ms ne e = cc

module _ (h : ClientMap) (f : Format) (garbage : Entry → ℤ) (socket : ℕ) (x : Server h) where
  pub dispatch-Spares :
      (d : ℕ) (m : SMessage) (now : ℕ) (c : ClientT)
      → d ≢ socket
      → found h f x d ≡ some c
      → Spares h f socket x (dispatch h f (decode_type m.message_type) d m now x)
  dispatch-Spares d m now c ne here =
      let (o, ms, same) = fate-keeps (decode_type m.message_type) m now c in
      settled-Spares h f socket x _ d o ms ne
        (dispatch-view h f (decode_type m.message_type) d m now x ∙ rw (here, same))

  pub disconnected-Spares :
      (d now : ℕ) → d ≢ socket → Spares h f socket x (parse_packet h f garbage d disconnected now x)
  disconnected-Spares d now ne =
      settled-Spares h f socket x _ d none [] ne (packet-view h f garbage d disconnected now x)

  pub accept-Spares :
      (interrupted : Bool) (a : Accepted) (fd : ℕ)
      → a.descriptor ≡ some fd
      → fd ≢ socket
      → a.registered ≡ true
      → Spares h f socket x (accept_client h f interrupted garbage a x)
  unfolding accept_client
  accept-Spares interrupted a fd taken ne registered =
      settled-Spares h f socket x _ fd (some (record a.memory { socket = fd })) [] ne
        (accept-view h f garbage interrupted a a.descriptor x ∙ rw (taken, registered))
