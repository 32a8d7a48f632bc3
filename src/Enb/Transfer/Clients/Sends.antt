-- ===== src/Enb/Transfer/Clients/Sends.antt =====
-- Who gets the file, and how the process ends.
use mathlib.Core.List.{append-nil, append_assoc}
use lte.Base.{
  ℕ, zero, suc, ◌+◌, ◌<◌, ◌≡◌, ◌≢◌, refl, ap, ◌∙◌, Bool, true, false, if◌then◌else◌, Bool-cases,
  inl, inr, arith, ltb, Option, none, some, List, [], ◌∷◌, ◌++◌, map, length, take, drop, replicate,
  ◌/◌,
}
use lte.Message.{SMessage}
use lte.Enb.ClientObject.{ClientMap, Entry}
use lte.Enb.Server.{Server}
use lte.Enb.Transfer.{
  Transfer, data_packet, sent, failed, stuck, send_blocks, end_transfer, broadcast_sample,
}
use lte.Enb.Transfer.Blocks.{
  data_packets, fill-take, send_blocks-sent, send_blocks-lost, broadcast_sample-sent,
}
use lte.Enb.Transfer.Clients.{
  Delivery, returned, exit_success, exit_failure, out_of_fuel, after_transfer, transfer_to,
  transfer_clients, transfer_data,
}

send_blocks-ne-stuck :
    (fuel pos packets : ℕ) (delivered : ℕ → Bool) (rest file : List ℕ) (out : List SMessage)
    → length file < pos + fuel
    → 0 < fuel
    → send_blocks fuel delivered rest file pos packets out ≢ stuck
unfolding send_blocks
send_blocks-ne-stuck zero pos packets delivered rest file out h k e = absurd (omega arith)
send_blocks-ne-stuck (suc fuel) pos packets delivered rest file out h k e =
    elim (Bool-cases (ltb pos (length file))) [
      | inr done ↦ let over = rw done at e in cc
      | inl more ↦ elim (Bool-cases (delivered packets)) [
        | inr lost ↦ let over = rw (more, lost) at e in cc
        | inl got ↦
            send_blocks-ne-stuck fuel (pos + 16) (packets + 1) delivered rest file _ (ground arith)
              (ground arith) (rw (more, got) at e)
      ]
    ]

end_transfer-ne-stuck :
    (ok : Bool) (tag : SMessage) (t : Transfer) → t ≢ stuck → end_transfer ok tag t ≢ stuck
unfolding end_transfer
end_transfer-ne-stuck true tag (sent out n) h e = cc
end_transfer-ne-stuck false tag (sent out n) h e = cc
end_transfer-ne-stuck ok tag (failed out) h e = cc
end_transfer-ne-stuck ok tag stuck h e = h refl

-- The fuel suffices, whichever calls of the kernel fail.
pub broadcast_sample-ne-stuck :
    (start_ok end_ok : Bool) (delivered : ℕ → Bool) (memory rest : List ℕ)
    (opened : Option (List ℕ))
    → broadcast_sample start_ok end_ok delivered memory rest opened ≢ stuck
unfolding broadcast_sample
broadcast_sample-ne-stuck start_ok end_ok delivered memory rest none e = cc
broadcast_sample-ne-stuck false end_ok delivered memory rest (some file) e = cc
broadcast_sample-ne-stuck true end_ok delivered memory rest (some file) e =
    end_transfer-ne-stuck end_ok _ _
      (send_blocks-ne-stuck (suc (length file)) 0 0 delivered rest file _ (omega arith)
        (omega arith))
      e

if_false {ℓ} : {A : Type ℓ} (x y : A) {b : Bool} → b ≡ false → (if b then x else y) ≡ y
if_false x y e = rw e

module _ (h : ClientMap) (deliver : Entry → Delivery) (memory file : List ℕ) where
  -- Every call of the kernel succeeds for this client, and the file holds these bytes.
  pub record IsDelivered (e : Entry) : Type 0 where
    pub opens : (deliver e).opened ≡ some file
    pub starts : (deliver e).start_ok ≡ true
    pub ends : (deliver e).end_ok ≡ true
    pub arrives : (n : ℕ) → (deliver e).delivered n ≡ true

  abbrev pub AllDelivered : List Entry → Type 0
  AllDelivered [] = Unit
  AllDelivered (e ∷ es) = IsDelivered e × AllDelivered es

  abbrev pub start_tag : Entry → SMessage
  start_tag e = record { message_type = 13; message_value = take 16 memory ++ (deliver e).rest }

  -- `k` blocks of sixteen bytes of the file from the byte `pos` on, with zeros behind its end.
  abbrev pub blocks : Entry → ℕ → ℕ → List SMessage
  blocks e zero pos = []
  blocks e (suc k) pos =
      record {
        message_type = 14;
        message_value = take 16 (drop pos file ++ replicate 16 0) ++ (deliver e).rest;
      }
      ∷ blocks e k (pos + 16)

  abbrev pub block_count : ℕ
  block_count = (length file + 15) / 16

  abbrev pub transfer_messages : Entry → List SMessage
  transfer_messages e =
      start_tag e ∷ blocks e block_count 0 ++ (record (start_tag e) { message_type = 15 }) ∷ []

  -- A call fails for this client: what got through before.
  pub data Fails (e : Entry) : List SMessage → Type 0 where
    no_file : (deliver e).opened ≡ none → Fails e []
    no_start : (deliver e).opened ≡ some file → (deliver e).start_ok ≡ false → Fails e []
    lost_block :
        (n : ℕ)
        → (deliver e).opened ≡ some file
        → (deliver e).start_ok ≡ true
        → n < block_count
        → ((k : ℕ) → k < n → (deliver e).delivered k ≡ true)
        → (deliver e).delivered n ≡ false
        → Fails e (start_tag e ∷ blocks e n 0)
    no_end :
        (deliver e).opened ≡ some file
        → (deliver e).start_ok ≡ true
        → ((k : ℕ) → (deliver e).delivered k ≡ true)
        → (deliver e).end_ok ≡ false
        → Fails e (start_tag e ∷ blocks e block_count 0)

  -- What the clients of `es` are sent, one after another.
  abbrev pub all_messages : List Entry → List (ℕ × SMessage)
  all_messages [] = []
  all_messages (e ∷ es) = map (λ m. (e.1.socket, m)) (transfer_messages e) ++ all_messages es

  data_packets-blocks :
      (e : Entry) (k pos : ℕ) → data_packets (deliver e).rest file k pos ≡ blocks e k pos
  unfolding data_packet
  data_packets-blocks e zero pos = refl
  data_packets-blocks e (suc k) pos =
      rw (fill-take 16 16 (drop pos file) (omega arith), data_packets-blocks e k (pos + 16)) refl

  transfer_to-sent :
      (e : Entry)
      → IsDelivered e
      → transfer_to h deliver memory e ≡ sent (transfer_messages e) block_count
  transfer_to-sent e d =
      rw (d.opens, d.starts, d.ends, ← data_packets-blocks e block_count 0)
        (broadcast_sample-sent (deliver e).delivered memory (deliver e).rest file d.arrives).0

  transfer_to-failed :
      (e : Entry) {ms : List SMessage} → Fails e ms → transfer_to h deliver memory e ≡ failed ms
  unfolding broadcast_sample end_transfer
  transfer_to-failed e (no_file closed) = rw closed
  transfer_to-failed e (no_start opens lost) = rw (opens, lost)
  transfer_to-failed e (lost_block n opens starts few all lost) =
      rw (opens, starts, ← data_packets-blocks e n 0)
        (ap (end_transfer (deliver e).end_ok (start_tag e)) (
          send_blocks-lost (deliver e).rest file (deliver e).delivered n n (suc (length file)) 0 0
            (start_tag e ∷ []) all lost (omega arith) (omega arith) (omega arith)))
  transfer_to-failed e (no_end opens starts all lost) =
      rw (opens, starts, lost, ← data_packets-blocks e block_count 0)
        (ap (end_transfer false (start_tag e)) (
          send_blocks-sent (deliver e).rest file (deliver e).delivered block_count
            (suc (length file)) 0 0 (start_tag e ∷ []) all (omega arith) (omega arith)
            (omega arith)))

  clients-sends :
      (before : List Entry) (rest : List Entry) (s : Server h)
      → AllDelivered before
      → transfer_clients h deliver memory (before ++ rest) s
        ≡ transfer_clients h deliver memory rest (record s { sent = s.sent ++ all_messages before })
  unfolding transfer_clients
  clients-sends [] rest s all = rw append-nil
  clients-sends ((k, c) ∷ before) rest s all =
      rw (transfer_to-sent (k, c) all.0) (clients-sends before rest _ all.1 ∙ rw append_assoc refl)

  clients-begin :
      (s : Server h)
      → s.threads_done ≡ false
      → transfer_data h deliver memory s ≡ transfer_clients h deliver memory (h.entries s.clients) s
  unfolding transfer_data
  clients-begin s goes = if_false _ _ goes

  -- If every call succeeds and the threads are not told to end, every client is sent the whole
  -- file, one client after another in the order of the map: the start message with sixteen bytes of
  -- `memory`, the file in blocks of sixteen bytes with zeros behind its end, and the end message;
  -- then the process exits with 0.
  pub transfer_data-sends :
      (s : Server h)
      → s.threads_done ≡ false
      → AllDelivered (h.entries s.clients)
      → transfer_data h deliver memory s
        ≡ exit_success (record s { sent = s.sent ++ all_messages (h.entries s.clients) })
  unfolding transfer_clients
  transfer_data-sends s goes all =
      clients-begin s goes ∙ rw append-nil at (clients-sends (h.entries s.clients) [] s all)

  -- If the threads are not told to end and a call fails for a client, after every call succeeded
  -- for the clients before it: those have been sent the whole file, no client behind it anything,
  -- and this one what got through, which is nothing if the file does not open or the start message
  -- fails, the start message and the first `n` blocks of the file if block `n` is the first to
  -- fail, and the start message and the whole file if the end message fails; the process exits
  -- with a failure.
  pub transfer_data-stops :
      (s : Server h) (before behind : List Entry) (e : Entry) (ms : List SMessage)
      → s.threads_done ≡ false
      → h.entries s.clients ≡ before ++ (e ∷ behind)
      → AllDelivered before
      → Fails e ms
      → transfer_data h deliver memory s
        ≡ exit_failure
            (record s { sent = (s.sent ++ all_messages before) ++ map (λ m. (e.1.socket, m)) ms })
  unfolding transfer_clients
  transfer_data-stops s before behind e ms goes order all fails =
      clients-begin s goes
      ∙ (ap (λ es. transfer_clients h deliver memory es s) order
          ∙ (clients-sends before (e ∷ behind) s all ∙ rw (transfer_to-failed e fails)))

  clients-ends :
      (es : List Entry) (s : Server h) → transfer_clients h deliver memory es s ≢ out_of_fuel
  unfolding transfer_clients
  clients-ends [] s e = cc
  clients-ends ((k, c) ∷ es) s e =
      go (transfer_to h deliver memory (k, c)) (broadcast_sample-ne-stuck _ _ _ _ _ _)
        (λ t. clients-ends es t) e
    where
      go :
          (t : Transfer)
          → t ≢ stuck
          → ((s' : Server h) → transfer_clients h deliver memory es s' ≢ out_of_fuel)
          → after_transfer h c.socket t (transfer_clients h deliver memory es) s ≢ out_of_fuel
      go (sent ms n) ends rest e = rest _ e
      go (failed ms) ends rest e = cc
      go stuck ends rest e = ends refl

  -- The thread always ends, whichever calls fail: no transfer runs out of its fuel.
  pub transfer_data-ends : (s : Server h) → transfer_data h deliver memory s ≢ out_of_fuel
  unfolding transfer_data
  transfer_data-ends s e = go s.threads_done e
    where
      go :
          (b : Bool)
          → (if b then returned s else transfer_clients h deliver memory (h.entries s.clients) s)
            ≢ out_of_fuel
      go true e = cc
      go false e = clients-ends (h.entries s.clients) s e
