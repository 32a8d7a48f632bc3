-- ===== src/System/KeepAlive.antt =====
-- A ping on its way to a client, the pong on its way back, and what it is good for.
use lte.Base.{
  ℕ, ◌+◌, ◌≤◌, ◌≡◌, refl, pos, Bool, true, false, Option, none, some, List, [], ◌∷◌, ◌++◌, arith,
}
use lte.Message.{SMessage, decode_type}
use lte.Ue.Main.{Client, Round, main_turn, take_turn, goes_on}
use lte.Ue.Main.Pong.{ping_answered}
use lte.Enb.ClientObject.{ClientT, ClientMap, Format, Entry, put_client_in_hashmap}
use lte.Enb.ClientObject.Laws
use lte.Enb.Server.{Server, running, typed_message}
use lte.Enb.Packet.{dispatch, handle_pong, update_client}
use lte.Enb.Packet.Frame.{found}
use lte.Enb.Consistent.{IsConsistent}
use lte.Enb.Ping.{ping_clients, drop_clients}
use lte.Enb.Ping.Inactive.{unheard, AreEntries, drop_clients_keeps}
use lte.Enb.Ping.Rounds.{messages, overdue, ping_clients_lem}
use lte.System.Network.{inbox}
use lte.System.Network.Inbox.{inbox-append}
use lte.System.Network.Once.{round_once, own_socket}
use mathlib.Core.Path.{subst}

heard_recently :
    (t heard : ℕ) (c : ClientT)
    → t ≤ heard + 4000
    → unheard t (record c { last_activity = pos heard }) ≡ false
heard_recently t heard c soon = ground arith

module _ (h : ClientMap) (f : Format) where
  -- The record of a client that was heard of, and the server that has handled its pong.
  abbrev pub heard_at : ℕ → ClientT → ClientT
  heard_at heard c = record c { last_activity = pos heard }

  abbrev pub after_pong : ℕ → ℕ → ClientT → Server h → Server h
  after_pong socket heard c x = record x {
    clients = put_client_in_hashmap h f x.clients socket (heard_at heard c);
  }

  updated :
      (o : Option ClientT) (change : ClientT → ClientT) (socket : ℕ) (x : Server h) {c : ClientT}
      → o ≡ some c
      → update_client h f o change socket x
        ≡ running (record x { clients = put_client_in_hashmap h f x.clients socket (change c) })
  unfolding update_client
  updated none change socket x e = cc
  updated (some d) change socket x {c} e = let same : d ≡ c = cc in rw same

  pong_noted :
      (socket heard : ℕ) (x : Server h) (c : ClientT)
      → found h f x socket ≡ some c
      → dispatch h f (decode_type 8) socket (typed_message 8) heard x
        ≡ running (after_pong socket heard c x)
  unfolding dispatch handle_pong
  pong_noted socket heard x c here = updated (found h f x socket) (heard_at heard) socket x here

  round_spares :
      (z : Server h) (socket : ℕ) (k : ClientT) (clock : Entry → ℕ) (visited : List Entry)
      → AreEntries h f clock z visited
      → k.socket ≡ socket
      → found h f z socket ≡ some k
      → unheard (clock (f.sprintf socket, k)) k ≡ false
      → found h f (drop_clients h f clock visited z) socket ≡ some k
  round_spares z socket k clock visited entries own here quiet =
      subst
        (λ d.
          unheard (clock (f.sprintf d, k)) k ≡ false
          → found h f z d ≡ some k
          → found h f (drop_clients h f clock visited z) d ≡ some k)
        own (λ q e. drop_clients_keeps h f clock visited z k entries q e) quiet here

  -- Where each client is stored under its own socket, a client that has been silent for longer
  -- than its battery allows is sent one ping by the next round; in its loop it answers with a
  -- pong, and the eNodeB, which handles that at `heard`, notes the time and keeps the client
  -- through a round of `handle_client_inactivity` that comes to it within 4000 seconds. The
  -- `write` of the answer succeeds.
  pub ping_keeps_alive :
      (x : Server h) (socket heard : ℕ) (c : ClientT) (ping_clock drop_clock : Entry → ℕ)
      (visited : List Entry) (r : Round) (u : Client)
      → IsConsistent h f x
      → found h f x socket ≡ some c
      → overdue (ping_clock (f.sprintf socket, c)) c ≡ true
      → goes_on u ≡ true
      → r.incoming ≡ some (typed_message 7)
      → r.answered ≡ true
      → AreEntries h f drop_clock
          (after_pong socket heard c (ping_clients h f ping_clock x))
          visited
      → drop_clock (f.sprintf socket, heard_at heard c) ≤ heard + 4000
      → let y = ping_clients h f ping_clock x in
        let z = after_pong socket heard c y in
        (inbox socket y.sent ≡ inbox socket x.sent ++ typed_message 7 ∷ [])
        × (v : Client) × (more : List SMessage) × (take_turn (main_turn r) u ≡ some v)
        × (v.device.sender.wire ≡ u.device.sender.wire ++ typed_message 8 ∷ more)
        × (dispatch h f (decode_type 8) socket (typed_message 8) heard y ≡ running z)
        × (found h f (drop_clients h f drop_clock visited z) socket ≡ some (heard_at heard c))
  ping_keeps_alive x socket heard c ping_clock drop_clock visited r u old here due on got told
        entries soon =
      let test : Entry → Bool = λ e. overdue (ping_clock e) e.1 in
      let y = ping_clients h f ping_clock x in
      let same = ping_clients_lem h f ping_clock x in
      let known : found h f y socket ≡ some c = rw same here in
      let (v, more, moves, writes) = ping_answered r u (typed_message 7) on got refl told in
      (
        rw
            (
              same,
              inbox-append socket x.sent (messages test (typed_message 7) (h.entries x.clients)),
              round_once h f x socket c test (typed_message 7) old here due,
            )
            refl,
        v,
        more,
        moves,
        writes,
        pong_noted socket heard y c known,
        round_spares (after_pong socket heard c y) socket (heard_at heard c) drop_clock visited
            entries (own_socket h f x socket c old here)
            (Laws.get-put_self h f y.clients socket (heard_at heard c))
            (heard_recently _ heard c soon),
      )
