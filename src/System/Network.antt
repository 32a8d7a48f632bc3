-- ===== src/System/Network.antt =====
-- The eNodeB and one of its clients, with the messages that are under way between them, while
-- other clients come, send what they like, and go.
--
-- What the client has written and the eNodeB has not read yet is the client's `wire`; what the
-- eNodeB has sent and the client has not received yet is in the server's `sent`. The steps are the
-- turns of the client's two threads, the rounds of the eNodeB's threads, and the handling of the
-- client's messages by its event loop. The transfer thread sends one message a step. No `fopen`
-- of the client fails, the file that it opens holds `before`, and a round that drops clients finds
-- that this one was heard of within 4000 seconds.
pub mod Inbox
pub mod Serves
pub mod Others
pub mod Once
pub mod Running
pub mod Kept
pub mod Safety
pub mod Progress
use lte.Base.{
  take, ℕ, ℤ, ◌≡◌, ◌≢◌, false, ◌==◌, if◌then◌else◌, Option, none, some, Bool, true, List, [], ◌∷◌,
  ◌++◌,
}
use lte.Message.{SMessage, decode_type}
use lte.Ue.Main.{Client, Round, Turn, main_turn, battery_turn, interrupt, take_turn, goes_on}
use lte.Ue.Main.Connection.{Start, established, connect_client}
use lte.Enb.ClientObject.{ClientT, ClientMap, Format, Entry}
use lte.Enb.Server.{Server, Outcome, running, exited, crashed, Accepted, accept_client, send}
use lte.Enb.Packet.{dispatch, parse_packet, disconnected}
use lte.Enb.Packet.Frame.{found}
use lte.Enb.Ping.{ping_clients, drop_clients, request_measurements}
use lte.Enb.Ping.Inactive.{unheard, AreEntries}
use lte.Enb.Transfer.{sent, broadcast_sample}

-- The messages that were sent to this socket, and all of `sent` but the first of them.
abbrev pub inbox : ℕ → List (ℕ × SMessage) → List SMessage
inbox socket [] = []
inbox socket ((d, m) ∷ out) = let rest = inbox socket out in if d == socket then m ∷ rest else rest

abbrev pub without_first : ℕ → List (ℕ × SMessage) → List (ℕ × SMessage)
without_first socket [] = []
without_first socket ((d, m) ∷ out) =
    let rest = (d, m) ∷ without_first socket out in if d == socket then out else rest

-- A client's turn in which `recv` delivers nothing.
abbrev pub IsIdle : Turn → Type 0
IsIdle (main_turn r) = r.incoming ≡ none
IsIdle (battery_turn written now later) = Unit
IsIdle interrupt = ⊥

abbrev pub with_wire : List SMessage → Client → Client
with_wire ms c = record c {
  device = record c.device { sender = record c.device.sender { wire = ms } };
}

module _ (h : ClientMap) where
  -- `file` is what the transfer thread has still to send to the client.
  pub record Pair : Type 0 where
    pub client : Client
    pub server : Server h
    pub file : List SMessage

  pub data State : Type 0 where
    both : Pair → State
    client_fault server_fault server_exit : State

  abbrev pub client_moves : Option Client → Server h → List SMessage → State
  client_moves none x file = client_fault
  client_moves (some c) x file = both (record { client = c; server = x; file = file })

  abbrev pub server_moves : Outcome h → Client → List SMessage → State
  server_moves (running x) c file = both (record { client = c; server = x; file = file })
  server_moves (exited x) c file = server_exit
  server_moves crashed c file = server_fault

module _ (h : ClientMap) (f : Format) (garbage : Entry → ℤ) (socket : ℕ) (before : List ℕ) where
  pub data Step (s t : State h) : Type 0 where
    receives :
        (p : Pair h) (r : Round) (m : SMessage) (ms : List SMessage)
        → s ≡ both p
        → inbox socket p.server.sent ≡ m ∷ ms
        → r.incoming ≡ some m
        → r.opened ≡ some before
        → t
          ≡ client_moves h
              (take_turn (main_turn r) p.client)
              (record p.server { sent = without_first socket p.server.sent })
              p.file
        → Step s t
    turns :
        (p : Pair h) (turn : Turn)
        → s ≡ both p
        → IsIdle turn
        → t ≡ client_moves h (take_turn turn p.client) p.server p.file
        → Step s t
    hears :
        (p : Pair h) (m : SMessage) (ms : List SMessage) (now : ℕ)
        → s ≡ both p
        → p.client.device.sender.wire ≡ m ∷ ms
        → t
          ≡ server_moves h
              (dispatch h f (decode_type m.message_type) socket m now p.server)
              (with_wire ms p.client)
              p.file
        → Step s t
    pings :
        (p : Pair h) (clock : Entry → ℕ)
        → s ≡ both p
        → t ≡ both (record p { server = ping_clients h f clock p.server })
        → Step s t
    measures :
        (p : Pair h)
        → s ≡ both p
        → t ≡ both (record p { server = request_measurements h f p.server })
        → Step s t
    drops :
        (p : Pair h) (clock : Entry → ℕ) (visited : List Entry)
        → s ≡ both p
        → AreEntries h f clock p.server visited
        → ((c : ClientT)
            → found h f p.server socket ≡ some c
            → unheard (clock (f.sprintf socket, c)) c ≡ false)
        → t ≡ both (record p { server = drop_clients h f clock visited p.server })
        → Step s t
    accepts_other :
        (p : Pair h) (interrupted : Bool) (a : Accepted) (fd : ℕ)
        → s ≡ both p
        → a.descriptor ≡ some fd
        → fd ≢ socket
        → a.registered ≡ true
        → t ≡ server_moves h (accept_client h f interrupted garbage a p.server) p.client p.file
        → Step s t
    hears_other :
        (p : Pair h) (d : ℕ) (m : SMessage) (now : ℕ) (c : ClientT)
        → s ≡ both p
        → d ≢ socket
        → found h f p.server d ≡ some c
        → t
          ≡ server_moves h
              (dispatch h f (decode_type m.message_type) d m now p.server)
              p.client
              p.file
        → Step s t
    loses_other :
        (p : Pair h) (d now : ℕ)
        → s ≡ both p
        → d ≢ socket
        → t ≡ server_moves h (parse_packet h f garbage d disconnected now p.server) p.client p.file
        → Step s t
    sends :
        (p : Pair h) (m : SMessage) (ms : List SMessage)
        → s ≡ both p
        → p.file ≡ m ∷ ms
        → t ≡ both (record p { server = send h f socket m p.server; file = ms })
        → Step s t

  -- Some steps, or none, lead from `s` to another state.
  pub data Leads (s : State h) : State h → Type 0 where
    here : Leads s s
    next : {t u : State h} → Leads s t → Step t u → Leads s u

  -- From a client that has connected, whose messages so far the eNodeB has read, and before what
  -- `broadcast_sample` sends to it, every `send` succeeding, is sent.
  pub data Reach (memory rest bytes : List ℕ) : State h → Type 0 where
    start :
        (k : Start) (c : Client) (x : Server h) (r : ClientT) (delivered : ℕ → Bool)
        (file : List SMessage) (packets : ℕ)
        → connect_client k ≡ established c
        → goes_on c ≡ true
        → found h f x socket ≡ some r
        → r.socket ≡ socket
        → inbox socket x.sent ≡ []
        → ((n : ℕ) → delivered n ≡ true)
        → broadcast_sample true true delivered memory rest (some bytes) ≡ sent file packets
        → Reach memory rest bytes
            (both (record { client = with_wire [] c; server = x; file = file }))
    later : {s t : State h} → Reach memory rest bytes s → Step s t → Reach memory rest bytes t
