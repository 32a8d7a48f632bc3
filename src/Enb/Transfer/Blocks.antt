-- ===== src/Enb/Transfer/Blocks.antt =====
-- The packets of a transfer: how many there are, and what they carry.
use lte.Base.{
  ℕ, zero, suc, ◌+◌, ◌-◌, ◌*◌, ◌/◌, ◌≤◌, ◌<◌, ◌≡◌, refl, ap, ◌∙◌, Bool, true, false, arith, List,
  [], ◌∷◌, ◌++◌, length, drop, take, replicate, ltb, some,
}
use mathlib.Core.List.{append-nil, append_assoc}
use native.Mathlib.Nat.{zero-add, add-zero, suc-add, sub-zero, suc-sub-suc}
use lte.Message.{SMessage, get_buffer}
use lte.Enb.Transfer.{
  fill, packet, data_packet, sent, failed, send_blocks, end_transfer, broadcast_sample,
}

pub length-fill : (n : ℕ) (xs : List ℕ) → length (fill n xs) ≡ n
length-fill zero xs = refl
length-fill (suc n) [] = ap suc (length-fill n [])
length-fill (suc n) (x ∷ xs) = ap suc (length-fill n xs)

fill-nil : (n : ℕ) → fill n [] ≡ replicate n 0
fill-nil zero = refl
fill-nil (suc n) = ap (λ (t : List ℕ). 0 ∷ t) (fill-nil n)

drop-nil : (a : ℕ) → drop {A = ℕ} a [] ≡ []
drop-nil zero = refl
drop-nil (suc a) = refl

-- A longer buffer is filled piece by piece.
fill-append : (a b : ℕ) (xs : List ℕ) → fill a xs ++ fill b (drop a xs) ≡ fill (a + b) xs
fill-append zero b xs = rw zero-add
fill-append (suc a) b [] =
    rw suc-add (ap (λ (t : List ℕ). 0 ∷ t) (rw (drop-nil a) at (fill-append a b [])))
fill-append (suc a) b (x ∷ xs) = rw suc-add (ap (λ (t : List ℕ). x ∷ t) (fill-append a b xs))

-- A buffer that is long enough holds all the bytes, and zeros behind them.
pub fill-all : (n : ℕ) (xs : List ℕ) → length xs ≤ n → fill n xs ≡ xs ++ replicate (n - length xs) 0
fill-all n [] h = fill-nil n ∙ rw sub-zero
fill-all zero (x ∷ xs) h = absurd (omega arith)
fill-all (suc n) (x ∷ xs) h =
    rw suc-sub-suc (ap (λ (t : List ℕ). x ∷ t) (fill-all n xs (omega arith)))

drop-drop : (a b : ℕ) (xs : List ℕ) → drop a (drop b xs) ≡ drop (b + a) xs
drop-drop a zero xs = rw zero-add
drop-drop a (suc b) [] = rw suc-add (drop-nil a)
drop-drop a (suc b) (x ∷ xs) = rw suc-add (drop-drop a b xs)

take-fill : (n : ℕ) (xs rest : List ℕ) → take n (fill n xs ++ rest) ≡ fill n xs
take-fill zero xs rest = refl
take-fill (suc n) [] rest = ap (λ (t : List ℕ). 0 ∷ t) (take-fill n [] rest)
take-fill (suc n) (x ∷ xs) rest = ap (λ (t : List ℕ). x ∷ t) (take-fill n xs rest)

-- A buffer is a piece of the bytes with zeros behind them.
take-replicate : (n m : ℕ) → n ≤ m → fill n [] ≡ take n (replicate m 0)
take-replicate zero m h = refl
take-replicate (suc n) zero h = absurd (omega arith)
take-replicate (suc n) (suc m) h = ap (λ (t : List ℕ). 0 ∷ t) (take-replicate n m (omega arith))

pub fill-take : (n m : ℕ) (xs : List ℕ) → n ≤ m → fill n xs ≡ take n (xs ++ replicate m 0)
fill-take n m [] h = take-replicate n m h
fill-take zero m (x ∷ xs) h = refl
fill-take (suc n) m (x ∷ xs) h = ap (λ (t : List ℕ). x ∷ t) (fill-take n m xs (omega arith))

-- The bytes that the buffers of some messages hold.
abbrev pub payloads : List SMessage → List ℕ
payloads [] = []
payloads (m ∷ ms) = get_buffer m ++ payloads ms

abbrev pub packet_count : List ℕ → ℕ
packet_count file = (length file + 15) / 16

module _ (rest file : List ℕ) where
  -- `k` packets from the byte `pos` on.
  abbrev pub data_packets : ℕ → ℕ → List SMessage
  data_packets zero pos = []
  data_packets (suc k) pos = data_packet rest file pos ∷ data_packets k (pos + 16)

  payloads-data_packets :
      (k pos : ℕ) → payloads (data_packets k pos) ≡ fill (k * 16) (drop pos file)
  unfolding data_packet
  payloads-data_packets zero pos = refl
  payloads-data_packets (suc k) pos =
      rw (take-fill 16 (drop pos file) rest, payloads-data_packets k (pos + 16))
        (rw (← drop-drop 16 pos file) (
          fill-append 16 (k * 16) (drop pos file) ∙ ap (λ n. fill n (drop pos file)) (omega arith)))

  pub send_blocks-sent :
      (delivered : ℕ → Bool) (k fuel pos packets : ℕ) (out : List SMessage)
      → ((n : ℕ) → delivered n ≡ true)
      → k < fuel
      → length file ≤ pos + k * 16
      → pos + k * 16 < length file + 16
      → send_blocks fuel delivered rest file pos packets out
        ≡ sent (out ++ data_packets k pos) (packets + k)
  unfolding send_blocks
  send_blocks-sent delivered k zero pos packets out all fuel low high = absurd (omega arith)
  send_blocks-sent delivered zero (suc fuel) pos packets out all enough low high =
      let done : ltb pos (length file) ≡ false = ground arith in rw done (rw (append-nil, add-zero))
  send_blocks-sent delivered (suc k) (suc fuel) pos packets out all enough low high =
      let more : ltb pos (length file) ≡ true = ground arith in
      let next =
        send_blocks-sent delivered k fuel (pos + 16) (packets + 1)
          (out ++ data_packet rest file pos ∷ []) all (omega arith) (omega arith) (omega arith) in
      rw (more, all packets)
        (next ∙ rw append_assoc (ap (sent (out ++ data_packets (suc k) pos)) (omega arith)))

  -- The `send` of packet `j` fails, and those before it do not.
  pub send_blocks-lost :
      (delivered : ℕ → Bool) (j k fuel pos packets : ℕ) (out : List SMessage)
      → ((n : ℕ) → n < j → delivered n ≡ true)
      → delivered j ≡ false
      → j ≡ packets + k
      → k < fuel
      → pos + k * 16 < length file
      → send_blocks fuel delivered rest file pos packets out ≡ failed (out ++ data_packets k pos)
  unfolding send_blocks
  send_blocks-lost delivered j k zero pos packets out all lost at fuel low = absurd (omega arith)
  send_blocks-lost delivered j zero (suc fuel) pos packets out all lost at enough low =
      let more : ltb pos (length file) ≡ true = ground arith in
      let same : j ≡ packets = omega arith in
      let here : delivered packets ≡ false = cc in rw (more, here) (rw (append-nil))
  send_blocks-lost delivered j (suc k) (suc fuel) pos packets out all lost at enough low =
      let more : ltb pos (length file) ≡ true = ground arith in
      rw (more, all packets (omega arith))
        (send_blocks-lost delivered j k fuel (pos + 16) (packets + 1)
            (out ++ data_packet rest file pos ∷ []) all lost (omega arith) (omega arith)
            (omega arith)
          ∙ rw append_assoc refl)

-- If the file opens and no `send` fails, the transfer ends, within its rounds, after one packet
-- for every sixteen bytes begun: it has sent the start tag, these packets and the end tag, and
-- the packets carry the file with zeros behind it up to a multiple of sixteen.
pub broadcast_sample-sent :
    (delivered : ℕ → Bool) (memory rest file : List ℕ)
    → ((n : ℕ) → delivered n ≡ true)
    → let k = packet_count file in
      let tag = packet 13 (take 16 memory) rest in
      let blocks = data_packets rest file k 0 in
      (broadcast_sample true true delivered memory rest (some file)
        ≡ sent (tag ∷ blocks ++ (record tag { message_type = 15 }) ∷ []) k)
      × (payloads blocks ≡ file ++ replicate (k * 16 - length file) 0)
unfolding broadcast_sample end_transfer
broadcast_sample-sent delivered memory rest file all =
    let k = packet_count file in
    let tag = packet 13 (take 16 memory) rest in
    (
      rw
          (send_blocks-sent rest file delivered k (suc (length file)) 0 0 (tag ∷ []) all
            (omega arith) (omega arith) (omega arith))
          (rw zero-add refl),
      payloads-data_packets rest file k 0 ∙ fill-all (k * 16) file (omega arith),
    )
