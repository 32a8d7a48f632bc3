-- ===== src/System/Network/Kept.antt =====
-- What each kind of step keeps of the invariant of the eNodeB and its client.
use lte.Base.{ℤ, false, ℕ, ◌≡◌, refl, ◌∙◌, Bool, some, List, [], ◌∷◌, ◌++◌}
use mathlib.Core.List.{append_assoc}
use mathlib.Core.Path.{subst}
use lte.Message.{SMessage, decode_type}
use lte.Ue.Main.{Client, Round, Turn, main_turn, battery_turn, interrupt, take_turn, goes_on}
use lte.Ue.Main.Shutdown.{IsInterrupt}
use lte.Ue.Main.Saving.{Disk, save, disk_of, turn_events}
use lte.Ue.Main.Uplink.{AreUplink}
use lte.Enb.ClientObject.{ClientT, ClientMap, Format, Entry}
use lte.Enb.Server.{Server, Outcome, send}
use lte.Enb.Packet.{dispatch}
use lte.Enb.Packet.Frame.{found}
use lte.Enb.Ping.{drop_clients}
use lte.Enb.Ping.Inactive.{unheard, AreEntries, drop_clients_keeps, drop_clients-sends}
use lte.System.Network.Others.{Spares}
use lte.Enb.Ping.Rounds.{messages}
use lte.System.Interleaved.{message_events}
use lte.System.Network.{
  inbox, without_first, IsIdle, with_wire, Pair, State, both, client_fault, server_fault,
  server_exit, client_moves, server_moves,
}
use lte.System.Network.Inbox.{inbox-append, inbox_self, inbox-without_first, inbox-messages}
use lte.System.Network.Serves.{dispatch-Answers, IsNeutral, message_events-insert}
use lte.System.Network.Running.{IsRunning, turn-IsRunning}

module _ (h : ClientMap) (f : Format) (garbage : Entry → ℤ) (socket : ℕ) (before : List ℕ)
    (goal : Disk) where
  -- What is under way, and what is still to be sent, completes the client's files to `goal`.
  abbrev pending : Pair h → List SMessage
  pending p = inbox socket p.server.sent ++ p.file

  -- The eNodeB has a record for this socket.
  abbrev pub Knows : Server h → Type 0
  Knows x = (c : ClientT) × (found h f x socket ≡ some c) × (c.socket ≡ socket)

  pub record IsWhole (p : Pair h) : Type 0 where
    pub client : IsRunning p.client
    pub known : Knows p.server
    pub order : save (message_events before (pending p)) (disk_of p.client) ≡ some goal

  abbrev pub IsSafe : State h → Type 0
  IsSafe (both p) = IsWhole p
  IsSafe client_fault = ⊥
  IsSafe server_fault = ⊥
  IsSafe server_exit = ⊥

  client_moves-IsSafe :
      (t : Turn) (c : Client) (x : Server h) (file : List SMessage)
      → ¬ (IsInterrupt t)
      → IsRunning c
      → Knows x
      → save (turn_events t ++ message_events before (inbox socket x.sent ++ file)) (disk_of c)
        ≡ some goal
      → IsSafe (client_moves h (take_turn t c) x file)
  client_moves-IsSafe t c x file live old here e =
      let (d, step, kept, order) = turn-IsRunning t c _ live old e in
      rw step (record { client = kept; known = here; order = order })

  pub receives-IsSafe :
      (p : Pair h) (r : Round) (m : SMessage) (ms : List SMessage)
      → inbox socket p.server.sent ≡ m ∷ ms
      → r.incoming ≡ some m
      → r.opened ≡ some before
      → IsWhole p
      → IsSafe (
          client_moves h
            (take_turn (main_turn r) p.client)
            (record p.server { sent = without_first socket p.server.sent })
            p.file)
  receives-IsSafe p r m ms first got opens old =
      client_moves-IsSafe (main_turn r) p.client _ p.file (λ x. x) old.client old.known
        (rw (got, opens, inbox-without_first socket p.server.sent first) (rw first at old.order))

  idle-events : (t : Turn) → IsIdle t → turn_events t ≡ []
  idle-events (main_turn r) idle = rw idle
  idle-events (battery_turn written now after) idle = refl
  idle-events interrupt idle = absurd idle

  idle-live : (t : Turn) → IsIdle t → ¬ (IsInterrupt t)
  idle-live (main_turn r) idle = λ x. x
  idle-live (battery_turn written now after) idle = λ x. x
  idle-live interrupt idle = absurd idle

  pub turns-IsSafe :
      (p : Pair h) (t : Turn)
      → IsIdle t
      → IsWhole p
      → IsSafe (client_moves h (take_turn t p.client) p.server p.file)
  turns-IsSafe p t idle old =
      client_moves-IsSafe t p.client p.server p.file (idle-live t idle) old.client old.known
        (rw (idle-events t idle) old.order)

  pub hears-IsSafe :
      (p : Pair h) (m : SMessage) (ms : List SMessage) (now : ℕ)
      → p.client.device.sender.wire ≡ m ∷ ms
      → IsWhole p
      → IsSafe (
          server_moves h
            (dispatch h f (decode_type m.message_type) socket m now p.server)
            (with_wire ms p.client)
            p.file)
  hears-IsSafe p m ms now first old =
      let written : AreUplink (m ∷ ms) = rw first at old.client.uplink in
      let (_, known, own) = old.known in
      let (y, c, done, here, kept, same) =
        dispatch-Answers h f socket m now p.server written.0 known own in
      rw done (record {
        client = record {
          goes = unfold goes_on in old.client.goes;
          quiet = old.client.quiet;
          uplink = written.1;
        };
        known = (c, here, kept);
        order = rw same old.order;
      })

  -- A round of the eNodeB's that sends the same message to some of its clients.
  pub round-IsSafe :
      (p : Pair h) (y : Server h) (m : SMessage) (test : Entry → Bool)
      → let es = h.entries p.server.clients in
        y ≡ record p.server { sent = p.server.sent ++ messages test m es }
        → IsNeutral m
        → IsWhole p
        → IsWhole (record p { server = y })
  round-IsSafe p y m test done plain old =
      let ms = messages test m (h.entries p.server.clients) in
      rw done (record {
        client = old.client;
        known = old.known;
        order =
            rw
              (
                inbox-append socket p.server.sent ms,
                message_events-insert before m (inbox socket p.server.sent) (inbox socket ms) p.file
                    plain (inbox-messages socket test m (h.entries p.server.clients)),
              )
              old.order;
      })

  pub sends-IsSafe :
      (p : Pair h) (m : SMessage) (ms : List SMessage)
      → p.file ≡ m ∷ ms
      → IsWhole p
      → IsWhole (record p { server = send h f socket m p.server; file = ms })
  unfolding send
  sends-IsSafe p m ms first old = record {
    client = old.client;
    known = old.known;
    order =
        rw (inbox-append socket p.server.sent ((socket, m) ∷ []), inbox_self socket m, append_assoc)
          (rw first at old.order);
  }

  pub others-IsSafe :
      (p : Pair h) (o : Outcome h)
      → Spares h f socket p.server o
      → IsWhole p
      → IsSafe (server_moves h o p.client p.file)
  others-IsSafe p o (y, done, here, same) old =
      let (c, known, own) = old.known in
      rw done
        (record { client = old.client; known = (c, here ∙ known, own); order = rw same old.order })

  pub drops-IsSafe :
      (p : Pair h) (clock : Entry → ℕ) (visited : List Entry)
      → AreEntries h f clock p.server visited
      → ((c : ClientT)
          → found h f p.server socket ≡ some c
          → unheard (clock (f.sprintf socket, c)) c ≡ false)
      → IsWhole p
      → IsWhole (record p { server = drop_clients h f clock visited p.server })
  drops-IsSafe p clock visited entries heard old =
      let (c, known, own) = old.known in
      let still =
        subst
          (λ d.
            unheard (clock (f.sprintf d, c)) c ≡ false
            → found h f p.server d ≡ some c
            → found h f (drop_clients h f clock visited p.server) d ≡ some c)
          own (λ quiet here. drop_clients_keeps h f clock visited p.server c entries quiet here)
          (heard c known) known in
      record {
        client = old.client;
        known = (c, still, own);
        order = rw (drop_clients-sends h f clock visited p.server) old.order;
      }
