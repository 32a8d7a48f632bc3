-- ===== src/System/PowerOff.antt =====
-- The end of a client, and what the eNodeB makes of it: ue_off, from `main` of clientLTE to
-- `handle_client_power_off` of serverLTE.
use lte.Base.{ℕ, ◌≡◌, ◌≢◌, refl, true, none, [], ◌∷◌, ◌++◌}
use lte.Message.{SMessage, decode_type}
use lte.Ue.Sender.{Sender, set_type}
use lte.Ue.Handle.{send_ue_off_signal}
use lte.Ue.Main.{Client}
use lte.Ue.Main.Program.{Kernel, ended, run_client}
use lte.Ue.Main.Program.Last.{run_client-last}
use lte.Enb.ClientObject.{ClientMap, Format}
use lte.Enb.ClientObject.Laws
use lte.Enb.Server.{Server, running, close_socket}
use lte.Enb.Packet.{dispatch, handle_client_power_off}
use lte.Enb.Packet.Frame.{found}

module _ (h : ClientMap) (f : Format) where
  -- Whatever a client has been through, when its program has ended the last message that it has
  -- written makes the eNodeB, in any state, forget the record of that client, close its socket,
  -- and go on with the records of all others as they were. The `write` of the message succeeds.
  pub power_off_arrives :
      (argc : ℕ) (k : Kernel) (c : Client) (s : Sender) (x : Server h) (socket now : ℕ)
      → run_client argc k ≡ ended c s
      → k.ue_off_written ≡ true
      → (m : SMessage) × (y : Server h) × (s.wire ≡ c.device.sender.wire ++ m ∷ [])
        × (dispatch h f (decode_type m.message_type) socket m now x ≡ running y)
        × (found h f y socket ≡ none)
        × ((other : ℕ) → socket ≢ other → found h f y other ≡ found h f x other)
        × (y.closed ≡ x.closed ++ socket ∷ [])
  unfolding send_ue_off_signal dispatch handle_client_power_off close_socket
  power_off_arrives argc k c s x socket now e written = (
    (set_type 9 c.device.sender).message,
    handle_client_power_off h f socket x,
    rw (run_client-last k argc e, written) refl,
    refl,
    Laws.get-delete_self h f x.clients socket,
    λ other ne. Laws.get-delete_ne h f x.clients socket other ne,
    refl,
  )
