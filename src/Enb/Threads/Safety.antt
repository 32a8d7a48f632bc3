-- ===== src/Enb/Threads/Safety.antt =====
-- What holds of every state that the threads can reach, and how they can crash the server.
use lte.Base.{
  ℕ, ◌≡◌, refl, sym, ap, ◌∙◌, ℤ, Bool, true, false, none, some, [], ◌∷◌, inl, inr, Bool-cases,
}
use lte.Message.{SMessage, decode_type}
use lte.Enb.ClientObject.{ClientT, ClientMap, Format, Entry, get_client_by_socket}
use lte.Enb.Server.{Server, error, clean, running, crashed, Accepted, accept_client}
use lte.Enb.Packet.{read_error, disconnected, dispatch, parse_packet}
use lte.Enb.Packet.Frame.{found, uses_record, dispatch-crash}
use lte.Enb.Packet.Loop.{accept-Safely, error-Safely}
use lte.Enb.Ping.{drop_clients}
use lte.Enb.Ping.Inactive.{unheard, drop_clients_drops}
use lte.Enb.Ping.Rounds.{ping_clients_lem, broadcasts_lem}
use lte.Enb.Consistent.{IsConsistent, accept-Stays, parse_packet-Stays, dispatch-Stays}
use mathlib.Core.Path.{subst}
use lte.Enb.Start.{run_server, receive_packets, receive_one, wait_error, signalled}
use lte.Enb.Threads.Orderly.{
  IsOrderly, after-IsOrderly, Safely-ne-crashed, drop-IsConsistent, drop-Pending,
  transfer_data-IsOrderly,
}
use lte.Enb.Start.Reach.{run_server-IsConsistent}
use lte.Enb.Packet.{and_then}
use lte.Enb.Start.{Startup, init_server}
use lte.Enb.Threads.{
  State, live, faulted, after, Step, Reach, accept, read, read_fails, leave, handle, ping, drop,
  measure, transfer, start, later, wait_fails, signal,
}

module _ (h : ClientMap) (f : Format) (garbage : Entry → ℤ) (drops : Bool) where
  accept-IsOrderly :
      (x : Server h) (i : Bool) (a : Accepted)
      → IsConsistent h f x
      → IsOrderly h f drops (after (accept_client h f i garbage a x))
  unfolding accept_client
  accept-IsOrderly x i a old =
      after-IsOrderly h f drops _ (accept-Stays h f garbage i a a.descriptor x old)
        (Safely-ne-crashed h f drops _ _ (accept-Safely h f garbage 0 i a a.descriptor x))

  read_fails-IsOrderly :
      (x : Server h) (d now : ℕ) (i : Bool)
      → IsConsistent h f x
      → IsOrderly h f drops (after (parse_packet h f garbage d (read_error i) now x))
  unfolding parse_packet
  read_fails-IsOrderly x d now i old =
      after-IsOrderly h f drops _ (parse_packet-Stays h f garbage d (read_error i) now x old)
        (Safely-ne-crashed h f drops (λ t. Unit) _ (error-Safely h f garbage (λ t. Unit) i x))

  wait_fails-IsOrderly :
      (x : Server h) (i : Bool)
      → IsOrderly h f drops (after (receive_one h f garbage (wait_error i) x))
  unfolding receive_one error clean
  wait_fails-IsOrderly x true = tt
  wait_fails-IsOrderly x false = tt

  signal-IsOrderly :
      (x : Server h) → IsOrderly h f drops (after (receive_one h f garbage signalled x))
  unfolding receive_one error clean
  signal-IsOrderly x = tt

  leave-IsOrderly :
      (x : Server h) (d now : ℕ)
      → IsConsistent h f x
      → IsOrderly h f drops (after (parse_packet h f garbage d disconnected now x))
  unfolding parse_packet
  leave-IsOrderly x d now old =
      let o = parse_packet h f garbage d disconnected now x in
      after-IsOrderly h f drops o (parse_packet-Stays h f garbage d disconnected now x old)
        (Safely-ne-crashed h f drops (λ t. Unit {0}) o tt)

  handle-IsOrderly :
      (x : Server h) (d : ℕ) (m : SMessage) (now : ℕ)
      → IsConsistent h f x
      → (drops ≡ false → (c : ClientT) × (found h f x d ≡ some c))
      → IsOrderly h f drops (after (dispatch h f (decode_type m.message_type) d m now x))
  handle-IsOrderly x d m now old known =
      after-IsOrderly h f drops _ (dispatch-Stays h f (decode_type m.message_type) d m now x old)
        (λ e. elim (Bool-cases drops) [
          | inl on ↦ on
          | inr off ↦
              let gone = ((dispatch-crash h f (decode_type m.message_type) d m now x).0 e).1 in
              let here = (known off).1 in cc
        ])

  Step-IsOrderly :
      {s t : State h} → Step h f garbage drops s t → IsOrderly h f drops s → IsOrderly h f drops t
  Step-IsOrderly (accept x i a p q) old = rw q (accept-IsOrderly x i a (rw p at old).0)
  Step-IsOrderly (read x d m c p known q) old = rw q ((rw p at old).0, λ off. (c, known))
  Step-IsOrderly (read_fails x d now i p q) old =
      rw q (read_fails-IsOrderly x d now i (rw p at old).0)
  Step-IsOrderly (leave x d now p q) old = rw q (leave-IsOrderly x d now (rw p at old).0)
  Step-IsOrderly (handle x d m now p q) old =
      let held = rw p at old in rw q (handle-IsOrderly x d m now held.0 held.1)
  Step-IsOrderly (wait_fails x i p q) old = rw q (wait_fails-IsOrderly x i)
  Step-IsOrderly (signal x p q) old = rw q (signal-IsOrderly x)
  Step-IsOrderly (ping x m clock p q) old = rw q (
      subst (λ y. IsOrderly h f drops (live y m)) (sym (ping_clients_lem h f clock x))
        (rw p at old))
  Step-IsOrderly (drop x m clock visited on p entries q) old =
      rw q
        (drop-IsConsistent h f drops clock visited x (rw p at old).0, drop-Pending h f drops _ m on)
  Step-IsOrderly (measure x m p q) old =
      rw q
        (subst (λ y. IsOrderly h f drops (live y m)) (sym (broadcasts_lem h f x).0) (rw p at old))
  Step-IsOrderly (transfer x m deliver memory p q) old =
      let held = rw p at old in
      rw q (transfer_data-IsOrderly h f drops m deliver memory x held.0 held.1)

  init_server-runs :
      (k : Startup) (x : Server h)
      → init_server h f garbage k ≡ running x
      → run_server h f garbage 2 k [] ≡ running x
  unfolding run_server and_then receive_packets
  init_server-runs k x e = rw e

  -- In every state that the threads reach, whatever the order of their steps, every client is
  -- stored under its own socket; and as long as the ping thread drops nobody, no step goes
  -- through a null pointer.
  pub Reach-IsOrderly : {s : State h} → Reach h f garbage drops s → IsOrderly h f drops s
  Reach-IsOrderly (start k {x} e) =
      (run_server-IsConsistent h f garbage 2 k [] {t = x} (init_server-runs k x e), tt)
  Reach-IsOrderly (later r st) = Step-IsOrderly st (Reach-IsOrderly r)

module _ (h : ClientMap) (f : Format) (garbage : Entry → ℤ) where
  same_socket :
      (x : Server h) (d : ℕ) (c : ClientT)
      → IsConsistent h f x
      → found h f x d ≡ some c
      → c.socket ≡ d
  unfolding get_client_by_socket
  same_socket x d c old here =
      sym (f.atoi-sprintf c.socket) ∙ (ap f.atoi (sym (old _ c here)) ∙ f.atoi-sprintf d)

  -- A drop between the `read` and the handler crashes the server: from every state that the
  -- threads reach in which a message that uses the client's record has been read, and its client
  -- has been silent for more than 4000 seconds when the ping thread comes to it. The ping thread's
  -- round is a step from that state, the record is gone behind it, and the handler that is the
  -- next step goes through the null pointer.
  pub drop_race :
      (x : Server h) (d now : ℕ) (m : SMessage) (c : ClientT) (clock : Entry → ℕ)
      → Reach h f garbage true (live x (some (d, m)))
      → found h f x d ≡ some c
      → uses_record h f (decode_type m.message_type) ≡ true
      → unheard (clock (f.sprintf d, c)) c ≡ true
      → let y = drop_clients h f clock ((f.sprintf d, c) ∷ []) x in
        Step h f garbage true (live x (some (d, m))) (live y (some (d, m)))
        × (found h f y d ≡ none)
        × (dispatch h f (decode_type m.message_type) d m now y ≡ crashed)
        × Step h f garbage true (live y (some (d, m))) faulted
  drop_race x d now m c clock r here uses silent =
      let entry : Entry = (f.sprintf d, c) in
      let y = drop_clients h f clock (entry ∷ []) x in
      let spelled = same_socket x d c (Reach-IsOrderly h f garbage true r).0 here in
      let (lost, _, _) = drop_clients_drops h f clock (entry ∷ []) x entry (inl refl) silent in
      let away = subst (λ n. found h f y n ≡ none) spelled lost in
      let falls = (dispatch-crash h f (decode_type m.message_type) d m now y).1 (uses, away) in
      (
        drop x _ clock (entry ∷ []) refl refl
            (
              (ap f.sprintf (sym spelled), subst (λ n. found h f x n ≡ some c) (sym spelled) here),
              tt,
            )
            refl,
        away,
        falls,
        handle y d m now refl (ap after (sym falls)),
      )
