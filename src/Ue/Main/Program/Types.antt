-- ===== src/Ue/Main/Program/Types.antt =====
-- The types of the messages that a client's program writes, from its start to its end.
use lte.Base.{
  ℕ, negsuc, eqb_ℤ, ltb, refl, arith, Bool, true, false, not, if◌then◌else◌, Bool-cases, inl, inr,
  Option, Option-cases, none, some, List, [], ◌∷◌,
}
use lte.Message.{SMessage, set_ue_identity, set_cause, mo_signaling, set_complete}
use lte.Message.Types.{TypesAre, IsUplink}
use lte.Ue.Sender.{Sender, set_type, write_message-TypesAre}
use lte.Ue.Access.{send_prach_preamble}
use lte.Ue.Rrc.{send_rrc_connection_request, send_rrc_setup_complete, receive_rrc_setup}
use lte.Ue.Handle.{send_ue_off_signal}
use lte.Ue.Main.{Client, Turn, take_turn, goes_on, run, run_result, finish}
use lte.Ue.Main.Uplink.{take_turn-TypesAre}
use lte.Ue.Main.Connection.{Start, Handshake, Connection, established, request_setup}
use lte.Ue.Main.Connection.Established.{IfEstablished, idle, connect_client-established}
use lte.Ue.Main.Program.{
  Kernel, Exit, looping, not_joined, ended, join_and_finish, run_connected, run_client,
}

-- All that the client has written is for the eNodeB.
abbrev pub AreUplink : List SMessage → Type 0
AreUplink ms = TypesAre IsUplink ms

abbrev Writes : Client → Type 0
Writes c = AreUplink c.device.sender.wire

preamble-AreUplink :
    (written : Bool) (ra_rnti : ℕ) → AreUplink (send_prach_preamble written ra_rnti idle).0.wire
unfolding send_prach_preamble
preamble-AreUplink true ra_rnti = (refl, tt)
preamble-AreUplink false ra_rnti = tt

request-AreUplink :
    (k : Start) (s : Sender)
    → AreUplink s.wire
    → AreUplink (send_rrc_connection_request k.request_written k.identity s).0.wire
unfolding send_rrc_connection_request
request-AreUplink k s all =
    write_message-TypesAre IsUplink k.request_written
      (record s {
        message = set_cause mo_signaling (set_ue_identity k.identity (set_type 2 s).message);
      })
      all refl

complete-AreUplink :
    (written : Bool) (s : Sender)
    → AreUplink s.wire
    → AreUplink (send_rrc_setup_complete written s).0.wire
unfolding send_rrc_setup_complete
complete-AreUplink written s all =
    let sends =
      write_message-TypesAre IsUplink written
        (record s { message = set_complete 234 15 (set_type 4 s).message }) all refl in
    ground (arith, sends)

setup-AreUplink :
    (written : Bool) (o : Option SMessage) (s : Sender)
    → AreUplink s.wire
    → AreUplink (receive_rrc_setup written o s).0.wire
unfolding receive_rrc_setup
setup-AreUplink written none s all = all
setup-AreUplink written (some got) s all =
    complete-AreUplink written (record s { message = got }) all

request_setup-Writes :
    (k : Start) (x : Handshake) → AreUplink x.sender.wire → IfEstablished Writes (request_setup k x)
unfolding request_setup
request_setup-Writes k x all =
    let (s, status) = send_rrc_connection_request k.request_written k.identity x.sender in
    elim (Bool-cases (eqb_ℤ status (negsuc 0))) [
      | inl lost ↦ rw lost tt
      | inr through ↦
          rw through
            (setup-AreUplink k.complete_written k.setup _ (request-AreUplink k x.sender all))
    ]

abbrev WritesResult : Option Client → Type 0
WritesResult none = Unit
WritesResult (some c) = Writes c

run-Writes : (ts : List Turn) (c : Client) → Writes c → WritesResult (run ts c)
unfolding run run_result
run-Writes [] c all = all
run-Writes (t ∷ ts) c all = elim (Option-cases (take_turn t c)) [
  | inl fault ↦ rw fault tt
  | inr (d, step) ↦
      rw step (run-Writes ts d (take_turn-TypesAre IsUplink refl refl refl refl t c all step))
]

-- What a program that has reached its loops has written.
abbrev pub ExitWrites : Exit → Type 0
ExitWrites (looping c) = Writes c
ExitWrites (not_joined c) = Writes c
ExitWrites (ended c s) = AreUplink s.wire
ExitWrites _ = Unit

finish-AreUplink : (written : Bool) (c : Client) → Writes c → AreUplink (finish written c).wire
unfolding finish send_ue_off_signal
finish-AreUplink written c all =
    let sends = write_message-TypesAre IsUplink written (set_type 9 c.device.sender) all refl in
    ground (arith, sends)

module _ (k : Kernel) where
  unless-Writes :
      (done : Bool) (early late : Exit)
      → ExitWrites early
      → ExitWrites late
      → ExitWrites (if done then early else late)
  unless-Writes true early late e l = e
  unless-Writes false early late e l = l

  join-Writes : (o : Option Client) → WritesResult o → ExitWrites (join_and_finish k o)
  unfolding join_and_finish
  join-Writes none all = tt
  join-Writes (some c) all =
      unless-Writes (goes_on c) _ _ all
        (unless-Writes (not k.thread_joined) _ _ all (finish-AreUplink k.ue_off_written c all))

  connected-Writes : (o : Connection) → IfEstablished Writes o → ExitWrites (run_connected k o)
  unfolding run_connected
  connected-Writes (established c) all =
      unless-Writes (not k.thread_created) _ _ tt (join-Writes _ (run-Writes k.turns c all))
  connected-Writes _ all = tt

  -- Whatever the kernel decides and the eNodeB sends, and in whatever order the two threads take
  -- their turns: every message that a program has written which has reached its loops and met no
  -- undefined behaviour, from the preamble to ue_off, has a type that is meant for the eNodeB, and
  -- none has a type that is for clients or is not declared.
  pub run_client-AreUplink : (argc : ℕ) → ExitWrites (run_client argc k)
  unfolding run_client
  run_client-AreUplink argc = unless-Writes (ltb argc 2) _ _ tt (
      unless-Writes (not k.first_mutex) _ _ tt (
        unless-Writes (not k.second_mutex) _ _ tt (
          connected-Writes _ (
            connect_client-established Writes k.start AreUplink
              (λ x sent. request_setup-Writes k.start x sent)
              (preamble-AreUplink k.start.preamble_written k.start.ra_rnti)))))
