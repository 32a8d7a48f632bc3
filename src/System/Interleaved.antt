-- ===== src/System/Interleaved.antt =====
-- A file on its way from `broadcast_sample` to a client whose two threads take turns in any order
-- while it arrives, and which receives other messages in between.
use lte.Base.{
  ℕ, zero, suc, ◌+◌, ◌-◌, ◌*◌, ◌≡◌, refl, ◌∙◌, Bool, true, none, some, List, [], ◌∷◌, ◌++◌, length,
  take, replicate,
}
use mathlib.Core.List.{append-nil, append_assoc}
use lte.Message.{SMessage, decode_type}
use lte.Ue.Main.{Client, Turn, goes_on, run}
use lte.Ue.Main.Shutdown.{NoInterrupt}
use lte.Ue.Main.Saving.{FileEvent, save, disk_result, event_of, events, IsQuiet, run-refines_save}
use lte.Enb.Transfer.{packet, sent, broadcast_sample, data_packet}
use lte.Enb.Transfer.Blocks.{payloads, packet_count, data_packets, broadcast_sample-sent}

-- The events that these messages are, where `fopen` gives `before`.
abbrev pub message_events : List ℕ → List SMessage → List FileEvent
message_events before [] = []
message_events before (m ∷ ms) =
    event_of (decode_type m.message_type) m (some before) ++ message_events before ms

pub save-blocks :
    (before rest file : List ℕ) (k pos : ℕ) (end : SMessage) (written : List ℕ)
    (saved : List (List ℕ))
    → save
        (message_events before
          (data_packets rest file k pos ++ (record end { message_type = 15 }) ∷ []))
        (record { open_file = some written; saved = saved })
      ≡ some (record {
        open_file = none;
        saved = saved ++ (written ++ payloads (data_packets rest file k pos)) ∷ [];
      })
unfolding data_packet
save-blocks before rest file zero pos end written saved = rw append-nil
save-blocks before rest file (suc k) pos end written saved =
    save-blocks before rest file k (pos + 16) end _ saved ∙ rw append_assoc refl

-- Whatever the turns of the client's threads are, and whatever else arrives between them: if the
-- data messages that its rounds receive are those of one transfer, in order, then the client has
-- appended to what the file of that name held (`before`) the bytes of the file and zeros up to a
-- multiple of sixteen, has closed it, and has met no undefined behaviour. The client is in its
-- loop, no SIGINT arrives, and no `send` fails.
pub transfer_saves_interleaved :
    (delivered : ℕ → Bool) (memory rest file before : List ℕ) (ts : List Turn) (c : Client)
    → ((n : ℕ) → delivered n ≡ true)
    → NoInterrupt ts
    → goes_on c ≡ true
    → IsQuiet c
    → let k = packet_count file in
      let tag = packet 13 (take 16 memory) rest in
      let messages = tag ∷ data_packets rest file k 0 ++ (record tag { message_type = 15 }) ∷ [] in
      events ts ≡ message_events before messages
      → (broadcast_sample true true delivered memory rest (some file) ≡ sent messages k)
        × (disk_result (run ts c)
            ≡ some (record {
              open_file = none;
              saved = c.saved ++ (before ++ (file ++ replicate (k * 16 - length file) 0)) ∷ [];
            }))
transfer_saves_interleaved delivered memory rest file before ts c all h on q arrives =
    let k = packet_count file in
    let tag = packet 13 (take 16 memory) rest in
    let (sends, carried) = broadcast_sample-sent delivered memory rest file all in
    let saves = save-blocks before rest file k 0 tag before c.saved in
    (sends, run-refines_save ts c h on q ∙ rw arrives (rw carried at saves))
