-- ===== src/Enb/Transfer/Clients.antt =====
-- `transfer_data` of packet_handler.c after its `sleep`: the file goes to one client after another.
pub mod Sends
use lte.Base.{ℕ, Bool, true, false, if◌then◌else◌, Option, List, [], ◌∷◌, ◌++◌, map}
use lte.Message.{SMessage}
use lte.Enb.ClientObject.{ClientT, ClientMap, Entry}
use lte.Enb.Server.{Server}
use lte.Enb.Transfer.{Transfer, sent, failed, stuck, broadcast_sample}

-- What the kernel decides while `broadcast_sample` runs for one client.
pub record Delivery : Type 0 where
  pub opened : Option (List ℕ)
  pub start_ok : Bool
  pub end_ok : Bool
  pub delivered : ℕ → Bool
  pub rest : List ℕ

-- How the thread ends: it returns, or the process exits with 0 or with `EXIT_FAILURE`.
pub data Ending (h : ClientMap) : Type 0 where
  returned : Server h → Ending h
  exit_success : Server h → Ending h
  exit_failure : Server h → Ending h
  out_of_fuel : Ending h

module _ (h : ClientMap) where
  abbrev pub send_all : ℕ → List SMessage → Server h → Server h
  send_all socket ms s = record s { sent = s.sent ++ map (λ m. (socket, m)) ms }

  unfoldable pub after_transfer : ℕ → Transfer → (Server h → Ending h) → Server h → Ending h
  after_transfer socket (sent ms packets) next s = next (send_all socket ms s)
  after_transfer socket (failed ms) next s = exit_failure (send_all socket ms s)
  after_transfer socket stuck next s = out_of_fuel

module _ (h : ClientMap) (deliver : Entry → Delivery) (memory : List ℕ) where
  abbrev pub transfer_to : Entry → Transfer
  transfer_to e =
      let d = deliver e in broadcast_sample d.start_ok d.end_ok d.delivered memory d.rest d.opened

  -- `hashmap_iter`, whose callback returns 0 if it returns, and the `exit(0)` behind it.
  unfoldable pub transfer_clients : List Entry → Server h → Ending h
  unfolding after_transfer
  transfer_clients [] s = exit_success s
  transfer_clients ((k, c) ∷ es) s =
      after_transfer h c.socket (transfer_to (k, c)) (transfer_clients es) s

  unfoldable pub transfer_data : Server h → Ending h
  transfer_data s = if s.threads_done then returned s else transfer_clients (h.entries s.clients) s
