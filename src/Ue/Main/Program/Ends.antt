-- ===== src/Ue/Main/Program/Ends.antt =====
-- How a run of the client's program ends.
use lte.Base.{
  ℕ, ltb, ◌≡◌, refl, sym, ap, ◌∙◌, arith, true, false, Bool-cases, none, some, Option-cases, inl,
  inr, List, [], ◌∷◌, ◌++◌, ◌≤◌,
}
use lte.Ue.Sender.{Sender, set_type}
use lte.Ue.Rrc.{send_rrc_connection_request}
use lte.Ue.Main.{
  Client, Turn, main_turn, battery_turn, interrupt, take_turn, goes_on, run, run_result, finish,
}
use lte.Ue.Main.Shutdown.{message_type_of, NoInterrupt, finish_sends_ue_off}
use lte.Ue.Main.Saving.{Disk, save, events, disk_of, disk_result, run-refines_save}
use lte.Ue.Main.Connection.{Start, Handshake, established, request_setup, connect_client}
use lte.Ue.Main.Connection.Established.{IfEstablished, connect_client-established}
use mathlib.Core.Path.{subst}
use lte.Ue.Main.Program.{Kernel, ended, join_and_finish, run_connected, run_client}

-- Before its first turn a client has no file, and the type of the RRC request in `message`.
pub record IsFresh (c : Client) : Type 0 where
  pub type : message_type_of c ≡ 2
  pub disk : disk_of c ≡ record { open_file = none; saved = [] }

request_setup-IsFresh : (k : Start) (x : Handshake) → IfEstablished IsFresh (request_setup k x)
unfolding request_setup send_rrc_connection_request
request_setup-IsFresh k x = elim (Bool-cases k.request_written) [
  | inl written ↦ rw written (record { type = refl; disk = refl })
  | inr lost ↦ rw lost tt
]

pub connect_client-IsFresh : (k : Start) (c : Client) → connect_client k ≡ established c → IsFresh c
connect_client-IsFresh k c up =
    subst (IfEstablished IsFresh) up
      (connect_client-established IsFresh k (λ sent. Unit) (λ x _. request_setup-IsFresh k x) tt)

-- Once SIGINT has come, no turn changes the client.
take_turn-off : (t : Turn) (c : Client) → c.running ≡ false → take_turn t c ≡ some c
unfolding take_turn goes_on
take_turn-off (main_turn r) c off = simp off
take_turn-off (battery_turn written now later) c off = simp off
take_turn-off interrupt c off = ap (λ b. some (record c { running = b })) (sym off)

run-off : (ts : List Turn) (c : Client) → c.running ≡ false → run ts c ≡ some c
unfolding run run_result
run-off [] c off = refl
run-off (t ∷ ts) c off = simp (take_turn-off t c off, run-off ts c off)

run-append : (ts us : List Turn) (c : Client) → run (ts ++ us) c ≡ run_result (run us) (run ts c)
unfolding run run_result
run-append [] us c = refl
run-append (t ∷ ts) us c = elim (Option-cases (take_turn t c)) [
  | inl fault ↦ rw fault
  | inr (d, step) ↦ rw step (run-append ts us d)
]

interrupted :
    (ts us : List Turn) (c c' : Client)
    → run ts c ≡ some c'
    → run (ts ++ interrupt ∷ us) c ≡ some (record c' { running = false })
interrupted ts us c c' e =
    rw (run-append ts (interrupt ∷ us) c, e)
      (unfold run run_result take_turn in run-off us (record c' { running = false }) refl)

-- A program that has reached its loops, on data messages whose order has a meaning and then a
-- SIGINT, ends with status 0, where no call fails whose result `main` tests: it has closed the
-- files that `save` says, and its last message is ue_off.
pub run_client_ends :
    (argc : ℕ) (k : Kernel) (c : Client) (ts us : List Turn) (d : Disk)
    → 2 ≤ argc
    → k.first_mutex ≡ true
    → k.second_mutex ≡ true
    → connect_client k.start ≡ established c
    → goes_on c ≡ true
    → k.thread_created ≡ true
    → k.turns ≡ ts ++ interrupt ∷ us
    → NoInterrupt ts
    → save (events ts) (record { open_file = none; saved = [] }) ≡ some d
    → k.thread_joined ≡ true
    → k.ue_off_written ≡ true
    → (c' : Client) × (s : Sender) × (run_client argc k ≡ ended c' s)
      × (disk_of c' ≡ d)
      × (s.wire ≡ c'.device.sender.wire ++ (set_type 9 c'.device.sender).message ∷ [])
unfolding run_client run_connected join_and_finish
run_client_ends argc k c ts us d args m0 m1 conn on made turns none_yet ordered joined told =
    let fresh = connect_client-IsFresh k.start c conn in
    let type = fresh.type in
    let disks : disk_result (run ts c) ≡ some d =
      run-refines_save ts c none_yet on (ground arith)
      ∙ ap (save (events ts)) fresh.disk
      ∙ ordered in
    elim (Option-cases (run ts c)) [
      | inl fault ↦ let lost : none ≡ some d = rw fault at disks in cc
      | inr (e, step) ↦
          let c' : Client = record e { running = false } in
          let all : run (ts ++ interrupt ∷ us) c ≡ some c' = interrupted ts us c e step in
          let few : ltb argc 2 ≡ false = ground arith in
          let same : some (disk_of e) ≡ some d = rw step at disks in
          (
            c',
            finish true c',
            rw (few, m0, m1, conn, made, turns, all, joined, told) (unfold goes_on in refl),
            cc,
            finish_sends_ue_off (ts ++ interrupt ∷ us) c (omega arith) all,
          )
    ]
