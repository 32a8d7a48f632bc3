-- ===== src/System/Transfer.antt =====
-- A file on its way from `broadcast_sample` to the client's main loop. Each `recv` of the client
-- delivers one whole message, in the order in which they were sent.
use lte.Base.{
  ℕ, zero, suc, ◌+◌, ◌-◌, ◌*◌, ◌≡◌, refl, Bool, true, arith, Option, none, some, List, [], ◌∷◌,
  ◌++◌, length, take, replicate, Option-cases, inl, inr,
}
use mathlib.Core.List.{append-nil, append_assoc}
use lte.Message.{SMessage, get_buffer}
use lte.Ue.Handle.{download_data}
use lte.Ue.Main.{Client, Round, Turn, main_turn, main_round, goes_on, take_turn, run}
use lte.Enb.Transfer.{packet, sent, broadcast_sample, data_packet}
use lte.Enb.Transfer.Blocks.{payloads, packet_count, data_packets, broadcast_sample-sent}

-- A client in its loop with `file` open, or with none, and these files written.
abbrev pub Holds : Option (List ℕ) → List (List ℕ) → Option Client → Type 0
Holds file saved none = ⊥
Holds file saved (some c) = (goes_on c ≡ true) × (c.file_to_recv ≡ file) × (c.saved ≡ saved)

start_round :
    (r : Round) (c : Client) (m : SMessage) (before : List ℕ)
    → goes_on c ≡ true
    → r.incoming ≡ some m
    → m.message_type ≡ 13
    → r.opened ≡ some before
    → Holds (some before) c.saved (main_round r c)
unfolding main_round goes_on
start_round r c m before on got type opened = ground arith

block_round :
    (r : Round) (c : Client) (m : SMessage) {file : List ℕ} {saved : List (List ℕ)}
    → goes_on c ≡ true
    → r.incoming ≡ some m
    → m.message_type ≡ 14
    → c.file_to_recv ≡ some file
    → c.saved ≡ saved
    → Holds (some (file ++ get_buffer m)) saved (main_round r c)
unfolding main_round goes_on download_data
block_round r c m on got type opened kept = rw (got, type, opened) (on, refl, kept)

end_round :
    (r : Round) (c : Client) (m : SMessage) {file : List ℕ} {saved : List (List ℕ)}
    → goes_on c ≡ true
    → r.incoming ≡ some m
    → m.message_type ≡ 15
    → c.file_to_recv ≡ some file
    → c.saved ≡ saved
    → Holds none (saved ++ file ∷ []) (main_round r c)
unfolding main_round goes_on
end_round r c m on got type opened kept = ground arith

-- The rounds whose `recv` delivers these messages, one each.
abbrev pub Delivers : List Round → List SMessage → Type 0
Delivers [] [] = Unit
Delivers (r ∷ rs) (m ∷ ms) = (r.incoming ≡ some m) × Delivers rs ms
Delivers _ _ = ⊥

abbrev pub AllBlocks : List SMessage → Type 0
AllBlocks [] = Unit
AllBlocks (m ∷ ms) = (m.message_type ≡ 14) × AllBlocks ms

abbrev pub turns : List Round → List Turn
turns [] = []
turns (r ∷ rs) = main_turn r ∷ turns rs

-- What follows a round of a client that is in its loop.
after_round :
    (P : Option Client → Type 0) (r : Round) (ts : List Turn) (c : Client) {file : Option (List ℕ)}
    {saved : List (List ℕ)}
    → goes_on c ≡ true
    → Holds file saved (main_round r c)
    → ((d : Client) → Holds file saved (some d) → P (run ts d))
    → P (run (main_turn r ∷ ts) c)
unfolding run take_turn
after_round P r ts c on held rest = elim (Option-cases (main_round r c)) [
  | inl fault ↦ absurd (rw fault at held)
  | inr (d, step) ↦ rw (on, step) (rest d (rw step at held))
]

run-blocks :
    (P : Option Client → Type 0) (rs : List Round) (ms : List SMessage) (ts : List Turn)
    (c : Client) (file : List ℕ) {saved : List (List ℕ)}
    → Delivers rs ms
    → AllBlocks ms
    → Holds (some file) saved (some c)
    → ((d : Client) → Holds (some (file ++ payloads ms)) saved (some d) → P (run ts d))
    → P (run (turns rs ++ ts) c)
run-blocks P [] [] ts c file del types held rest = rest c (rw append-nil held)
run-blocks P [] (m ∷ ms) ts c file del types held rest = absurd del
run-blocks P (r ∷ rs) [] ts c file del types held rest = absurd del
run-blocks P (r ∷ rs) (m ∷ ms) ts c file del types (on, opened, same) rest =
    after_round P r (turns rs ++ ts) c on (block_round r c m on del.0 types.0 opened same)
      (λ d held.
        run-blocks P rs ms ts d (file ++ get_buffer m) del.1 types.1 held
          (λ e kept. rest e (rw append_assoc at kept)))

AllBlocks-data_packets : (rest file : List ℕ) (k pos : ℕ) → AllBlocks (data_packets rest file k pos)
unfolding data_packet
AllBlocks-data_packets rest file zero pos = tt
AllBlocks-data_packets rest file (suc k) pos = (refl, AllBlocks-data_packets rest file k (pos + 16))

run-download :
    (first last : Round) (rs : List Round) (start end : SMessage) (ms : List SMessage)
    (before : List ℕ) (c : Client)
    → goes_on c ≡ true
    → first.incoming ≡ some start
    → start.message_type ≡ 13
    → first.opened ≡ some before
    → Delivers rs ms
    → AllBlocks ms
    → last.incoming ≡ some end
    → end.message_type ≡ 15
    → Holds none
        (c.saved ++ (before ++ payloads ms) ∷ [])
        (run (main_turn first ∷ turns rs ++ main_turn last ∷ []) c)
run-download first last rs start end ms before c on i1 t1 opened del types i2 t2 =
    after_round Done first _ c on (start_round first c start before on i1 t1 opened) (λ d held.
      run-blocks Done rs ms (main_turn last ∷ []) d before del types held (λ e kept.
        after_round Done last [] e kept.0 (end_round last e end kept.0 i2 t2 kept.1 kept.2)
          (λ g final. unfold run in final)))
  where
    Done : Option Client → Type 0
    Done = Holds none (c.saved ++ (before ++ payloads ms) ∷ [])

-- A file that the eNodeB sends, every `send` succeeding, to a client in its loop: once the
-- client's rounds have received the messages in order, it has appended to what the file of that
-- name held (`before`) the bytes of the file and zeros up to a multiple of sixteen, and closed it.
transfer_saves :
    (delivered : ℕ → Bool) (memory rest file before : List ℕ) (first last : Round) (rs : List Round)
    (c : Client)
    → ((n : ℕ) → delivered n ≡ true)
    → goes_on c ≡ true
    → first.opened ≡ some before
    → first.incoming ≡ some (packet 13 (take 16 memory) rest)
    → Delivers rs (data_packets rest file (packet_count file) 0)
    → last.incoming ≡ some (packet 15 (take 16 memory) rest)
    → let k = packet_count file in
      let tag = packet 13 (take 16 memory) rest in
      let end = record tag { message_type = 15 } in
      let blocks = data_packets rest file k 0 in
      (broadcast_sample true true delivered memory rest (some file)
        ≡ sent (tag ∷ blocks ++ end ∷ []) k)
      × Holds none
          (c.saved ++ (before ++ (file ++ replicate (k * 16 - length file) 0)) ∷ [])
          (run (main_turn first ∷ turns rs ++ main_turn last ∷ []) c)
transfer_saves delivered memory rest file before first last rs c all on opened i1 del i2 =
    let k = packet_count file in
    let tag = packet 13 (take 16 memory) rest in
    let (sends, carried) = broadcast_sample-sent delivered memory rest file all in
    let got =
      run-download first last rs tag (record tag { message_type = 15 }) (data_packets rest file k 0)
        before c on i1 refl opened del (AllBlocks-data_packets rest file k 0) i2 refl in
    (sends, rw carried at got)
