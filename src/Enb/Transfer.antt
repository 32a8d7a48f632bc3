-- ===== src/Enb/Transfer.antt =====
-- The file transfer of packet_handler.c: `broadcast_sample` for one client.
--
-- A file is its bytes. `memory` is what stands behind the pointer to the file's name, `rest` the
-- bytes of the union behind `buffer`, which are never set, and `delivered n` says whether the
-- `n`-th `send` of a packet succeeds. An `fread` of less than the sixteen bytes that it asks for
-- leaves those it did read in the buffer, as glibc does. A file is smaller than 2 GB, so that no
-- `int` overflows.
pub mod Blocks
pub mod Types
pub mod Clients
use lte.Base.{
  ℕ, zero, suc, ◌+◌, ltb, Bool, if◌then◌else◌, Option, none, some, List, [], ◌∷◌, ◌++◌, length,
  drop, take,
}
use lte.Message.{SMessage, type_code, data_start, data_block, data_end, buffer_size}

-- A buffer of `n` zeros into which bytes are read: the end of a short read stays zero.
abbrev pub fill : ℕ → List ℕ → List ℕ
fill zero xs = []
fill (suc n) [] = 0 ∷ fill n []
fill (suc n) (x ∷ xs) = x ∷ fill n xs

abbrev pub packet : ℕ → List ℕ → List ℕ → SMessage
packet t buffer rest = record { message_type = t; message_value = buffer ++ rest }

-- `memset`, `fseek` and `fread` in the loop.
unfoldable pub data_packet : List ℕ → List ℕ → ℕ → SMessage
data_packet rest file bytes_read =
    packet (type_code data_block) (fill buffer_size (drop bytes_read file)) rest

-- `failed` is `exit(EXIT_FAILURE)`; `stuck` is the fuel run out.
pub data Transfer : Type 0 where
  sent : List SMessage → ℕ → Transfer
  failed : List SMessage → Transfer
  stuck : Transfer

-- The `while` loop; `out` is what was sent.
unfoldable pub send_blocks : ℕ → (ℕ → Bool) → List ℕ → List ℕ → ℕ → ℕ → List SMessage → Transfer
unfolding data_packet
send_blocks zero delivered rest file bytes_read packets_sent out = stuck
send_blocks (suc fuel) delivered rest file bytes_read packets_sent out =
    let m = data_packet rest file bytes_read in
    let go_on =
      send_blocks fuel delivered rest file (bytes_read + buffer_size) (packets_sent + 1)
        (out ++ m ∷ []) in
    if ltb bytes_read (length file)
    then (if delivered packets_sent then go_on else failed out)
    else sent out packets_sent

-- The last message reuses the first one's buffer.
unfoldable pub end_transfer : Bool → SMessage → Transfer → Transfer
end_transfer ok tag (sent out packets) =
    if ok
    then sent (out ++ (record tag { message_type = type_code data_end }) ∷ []) packets
    else failed out
end_transfer ok tag (failed out) = failed out
end_transfer ok tag stuck = stuck

transfer_file : Bool → Bool → (ℕ → Bool) → List ℕ → List ℕ → Option (List ℕ) → Transfer
transfer_file start_ok end_ok delivered memory rest none = failed []
transfer_file start_ok end_ok delivered memory rest (some file) =
    let tag = packet (type_code data_start) (take buffer_size memory) rest in
    let blocks = send_blocks (suc (length file)) delivered rest file 0 0 (tag ∷ []) in
    if start_ok then end_transfer end_ok tag blocks else failed []

-- `opened` is what `fopen` gives. As many rounds as the file has bytes, and one more, suffice.
unfoldable pub broadcast_sample :
    Bool → Bool → (ℕ → Bool) → List ℕ → List ℕ → Option (List ℕ) → Transfer
unfolding transfer_file
broadcast_sample start_ok end_ok delivered memory rest opened =
    transfer_file start_ok end_ok delivered memory rest opened
