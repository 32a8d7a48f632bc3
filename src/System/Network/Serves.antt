-- ===== src/System/Network/Serves.antt =====
-- What the eNodeB does with the messages of a client in its loop, and the client with the rounds
-- of the eNodeB.
use lte.Base.{ℕ, ◌≡◌, refl, ap, ◌∙◌, inl, inr, Option, none, some, List, [], ◌∷◌, ◌++◌}
use lte.Message.{SMessage, decode_type}
use lte.Enb.ClientObject.{ClientT, ClientMap, Format}
use lte.Enb.ClientObject.Laws
use lte.Enb.Server.{Server, Outcome, running}
use lte.Enb.Packet.{
  dispatch, update_client, handle_pong, handle_low_battery_request, handle_high_battery_request,
}
use lte.Enb.Packet.Frame.{found}
use lte.Ue.Main.Uplink.{IsUplink}
use lte.Ue.Main.Saving.{event_of}
use lte.System.Network.Inbox.{AllAre}
use lte.System.Interleaved.{message_events}

module _ (h : ClientMap) (f : Format) where
  -- The server goes on, has a record for this socket, and has sent nothing.
  abbrev pub Answers : ℕ → Server h → Outcome h → Type 0
  Answers socket x o =
      (y : Server h) × (c : ClientT) × (o ≡ running y)
      × (found h f y socket ≡ some c)
      × (c.socket ≡ socket)
      × (y.sent ≡ x.sent)

  update_client-Answers :
      (o : Option ClientT) (change : ClientT → ClientT) (socket : ℕ) (x : Server h) {c : ClientT}
      → o ≡ some c
      → c.socket ≡ socket
      → ((d : ClientT) → (change d).socket ≡ d.socket)
      → Answers socket x (update_client h f o change socket x)
  unfolding update_client
  update_client-Answers none change socket x e own same = cc
  update_client-Answers (some d) change socket x {c} e own same =
      let stored : d ≡ c = cc in
      (
        _,
        change d,
        refl,
        Laws.get-put_self h f x.clients socket (change d),
        same d ∙ ap (λ (y : ClientT). y.socket) stored ∙ own,
        refl,
      )

  pub dispatch-Answers :
      (socket : ℕ) (m : SMessage) (now : ℕ) (x : Server h) {c : ClientT}
      → IsUplink m.message_type
      → found h f x socket ≡ some c
      → c.socket ≡ socket
      → Answers socket x (dispatch h f (decode_type m.message_type) socket m now x)
  unfolding dispatch handle_pong handle_low_battery_request handle_high_battery_request
  dispatch-Answers socket m now x (inl low) here own =
      rw low (update_client-Answers _ _ socket x here own (λ d. refl))
  dispatch-Answers socket m now x (inr (inl high)) here own =
      rw high (update_client-Answers _ _ socket x here own (λ d. refl))
  dispatch-Answers socket m now x (inr (inr (inl pong))) here own =
      rw pong (update_client-Answers _ _ socket x here own (λ d. refl))
  dispatch-Answers socket m now x {c} (inr (inr (inr report))) here own =
      rw report (x, c, refl, here, own, refl)

-- Messages that concern no file.
abbrev pub IsNeutral : SMessage → Type 0
IsNeutral m = (opened : Option (List ℕ)) → event_of (decode_type m.message_type) m opened ≡ []

pub message_events-insert :
    (before : List ℕ) (m : SMessage) (xs ns ys : List SMessage)
    → IsNeutral m
    → AllAre m ns
    → message_events before ((xs ++ ns) ++ ys) ≡ message_events before (xs ++ ys)
message_events-insert before m [] [] ys plain all = refl
message_events-insert before m [] (n ∷ ns) ys plain all =
    rw (all.0, plain (some before)) (message_events-insert before m [] ns ys plain all.1)
message_events-insert before m (x ∷ xs) ns ys plain all =
    ap (λ es. event_of (decode_type x.message_type) x (some before) ++ es)
      (message_events-insert before m xs ns ys plain all)
