-- ===== src/System/Network/Safety.antt =====
-- What holds of the eNodeB and its client in every order of their steps.
use lte.Base.{
  ℤ, ℕ, ◌-◌, ◌*◌, ◌≡◌, refl, ap, ◌∙◌, true, none, some, List, [], ◌∷◌, ◌++◌, length, take,
  replicate, arith,
}
use lte.Message.{SMessage}
use lte.Ue.Main.{goes_on}
use lte.Ue.Main.Saving.{Disk, save, disk_of}
use lte.Ue.Main.Program.Ends.{connect_client-IsFresh}
use lte.Enb.ClientObject.{ClientMap, Format, Entry}
use lte.Enb.Server.{typed_message}
use lte.System.Network.Others.{dispatch-Spares, disconnected-Spares, accept-Spares}
use lte.Enb.Ping.Rounds.{overdue, ping_clients_lem, broadcasts_lem}
use lte.Enb.Transfer.{packet}
use lte.Enb.Transfer.Blocks.{packet_count, data_packets, broadcast_sample-sent}
use lte.System.Interleaved.{message_events, save-blocks}
use lte.System.Network.{
  inbox, Pair, State, both, Step, receives, turns, hears, pings, measures, drops, accepts_other,
  hears_other, loses_other, sends, Reach, start, later,
}
use lte.System.Network.Kept.{
  IsSafe, receives-IsSafe, turns-IsSafe, hears-IsSafe, round-IsSafe, sends-IsSafe, others-IsSafe,
  drops-IsSafe,
}

module _ (h : ClientMap) (f : Format) (garbage : Entry → ℤ) (socket : ℕ) (before : List ℕ)
    (goal : Disk) where
  Step-IsSafe :
      {s t : State h}
      → Step h f garbage socket before s t
      → IsSafe h f garbage socket before goal s
      → IsSafe h f garbage socket before goal t
  Step-IsSafe (receives p r m ms s first got opens t) old =
      rw t (receives-IsSafe h f garbage socket before goal p r m ms first got opens (rw s at old))
  Step-IsSafe (turns p u s idle t) old =
      rw t (turns-IsSafe h f garbage socket before goal p u idle (rw s at old))
  Step-IsSafe (hears p m ms now s first t) old =
      rw t (hears-IsSafe h f garbage socket before goal p m ms now first (rw s at old))
  Step-IsSafe (pings p clock s t) old = rw t (
      round-IsSafe h f garbage socket before goal p _ (typed_message 7) (λ e. overdue (clock e) e.1)
        (ping_clients_lem h f clock p.server) (λ o. refl) (rw s at old))
  Step-IsSafe (measures p s t) old = rw t (
      round-IsSafe h f garbage socket before goal p _ (typed_message 11) (λ e. true)
        (broadcasts_lem h f p.server).0 (λ o. refl) (rw s at old))
  Step-IsSafe (drops p clock visited s entries heard t) old =
      rw t (drops-IsSafe h f garbage socket before goal p clock visited entries heard (rw s at old))
  Step-IsSafe (accepts_other p i a fd s taken ne registered t) old = rw t (
      others-IsSafe h f garbage socket before goal p _
        (accept-Spares h f garbage socket p.server i a fd taken ne registered) (rw s at old))
  Step-IsSafe (hears_other p d m now c s ne here t) old = rw t (
      others-IsSafe h f garbage socket before goal p _
        (dispatch-Spares h f garbage socket p.server d m now c ne here) (rw s at old))
  Step-IsSafe (loses_other p d now s ne t) old = rw t (
      others-IsSafe h f garbage socket before goal p _
        (disconnected-Spares h f garbage socket p.server d now ne) (rw s at old))
  Step-IsSafe (sends p m ms s first t) old =
      rw t (sends-IsSafe h f garbage socket before goal p m ms first (rw s at old))

-- All that `broadcast_sample` sends of these bytes.
abbrev pub whole_file : List ℕ → List ℕ → List ℕ → List SMessage
whole_file memory rest bytes =
    let tag = packet 13 (take 16 memory) rest in
    tag ∷ data_packets rest bytes (packet_count bytes) 0 ++ (record tag { message_type = 15 }) ∷ []

-- The client's files once `bytes` have come.
abbrev pub arrived : List ℕ → List ℕ → Disk
arrived before bytes = record {
  open_file = none;
  saved = (before ++ (bytes ++ replicate (packet_count bytes * 16 - length bytes) 0)) ∷ [];
}

whole_file-saves :
    (memory rest before bytes : List ℕ)
    → save
        (message_events before (whole_file memory rest bytes))
        (record { open_file = none; saved = [] })
      ≡ some (arrived before bytes)
whole_file-saves memory rest before bytes =
    let tag = packet 13 (take 16 memory) rest in
    let carried = (broadcast_sample-sent (λ n. true) memory rest bytes (λ n. refl)).1 in
    save-blocks before rest bytes (packet_count bytes) 0 tag before [] ∙ rw carried

module _ (h : ClientMap) (f : Format) (garbage : Entry → ℤ) (socket : ℕ)
    (before memory rest bytes : List ℕ) where
  -- From a client that has connected on, and while a file is sent to it, in every order of the
  -- steps of `Step`, the client meets no undefined behaviour and stays in its loop, the eNodeB
  -- meets none either, does not end and keeps a record for the client, what the client has
  -- written and the eNodeB has not read is pongs, battery notices and measurement reports, and
  -- what is on its way to the client or still to be sent completes its files to the whole file.
  -- The conditions are those of the steps: no SIGINT comes to either program; `fopen` succeeds in
  -- the client and opens a file that holds `before`; `accept`, `epoll_ctl`, `epoll_wait` and `read`
  -- succeed in the eNodeB; the transfer thread has begun with this client, its `send`s succeed, and
  -- it does not go on to end the process; this client does not disconnect, and a round that drops
  -- clients finds that it was heard of within 4000 seconds; and the other clients have other
  -- descriptors.
  pub Reach-IsSafe :
      {s : State h}
      → Reach h f garbage socket before memory rest bytes s
      → IsSafe h f garbage socket before (arrived before bytes) s
  Reach-IsSafe (start k c x r delivered file packets up goes here own empty all sends_all) =
      let fresh = connect_client-IsFresh k c up in
      let type = fresh.type in
      let sent_whole = (broadcast_sample-sent delivered memory rest bytes all).0 in
      let same : file ≡ whole_file memory rest bytes = cc in
      record {
        client = record { goes = unfold goes_on in goes; quiet = ground arith; uplink = tt };
        known = (r, here, own);
        order = rw empty (
            ap (λ ms. save (message_events before ms) (disk_of c)) same
            ∙ (ap (save (message_events before (whole_file memory rest bytes))) fresh.disk
                ∙ whole_file-saves memory rest before bytes));
      }
  Reach-IsSafe (later r st) =
      Step-IsSafe h f garbage socket before (arrived before bytes) st (Reach-IsSafe r)

  -- Once the whole file has been sent and the client has received all that was sent to it, then,
  -- whatever the order of the steps was, it has closed one file: what the file of that name held
  -- (`before`), the bytes that were sent, and zeros up to a multiple of sixteen.
  pub file_arrives :
      (p : Pair h)
      → Reach h f garbage socket before memory rest bytes (both p)
      → p.file ≡ []
      → inbox socket p.server.sent ≡ []
      → disk_of p.client ≡ arrived before bytes
  file_arrives p r over empty =
      let order = (Reach-IsSafe r).order in let last = rw (over, empty) at order in cc
