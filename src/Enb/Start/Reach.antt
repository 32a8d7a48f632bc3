-- ===== src/Enb/Start/Reach.antt =====
-- What holds of every server that the program can reach.
use lte.Base.{
  ℕ, ℤ, ◌≡◌, ◌↔◌, refl, arith, Bool, true, false, ltb, pos, Bool-cases, inl, inr, ◌++◌, not,
  if◌then◌else◌, ◌&&◌, Option, none, some, List, [], ◌∷◌,
}
use lte.Enb.ClientObject.{ClientT, ClientMap, Format, Entry}
use lte.Enb.Server.{Server, Outcome, running, exited, crashed, clean, error}
use lte.Enb.Packet.{and_then, handle_connection}
use lte.Enb.Consistent.{IsConsistent, handle_connection-IsConsistent}
use lte.Enb.Ping.Rounds.{messages, spelled, clean_lem}
use lte.Enb.Server.{typed_message}
use lte.Enb.Start.{
  Startup, Wait, ready, signalled, wait_error, early_error, server_init, bind_and_listen,
  init_server, receive_one, receive_packets, run_server, remind_about_port,
}

abbrev opened : Option ℕ → Bool
opened none = false
opened (some socket) = true

-- Every system call of `init_server` succeeds.
abbrev pub succeeds : Startup → Bool
succeeds k = opened k.descriptor && (k.bound && (k.listening && (k.polling && k.registered)))

module _ (h : ClientMap) (f : Format) (garbage : Entry → ℤ) where
  bind_crash :
      (k : Startup) (o : Option ℕ)
      → (bind_and_listen h f garbage k o ≡ crashed) ↔ (
          ((opened o && (k.bound && (k.listening && (k.polling && k.registered)))) ≡ false)
          × (k.interrupted ≡ false))
  unfolding bind_and_listen early_error clean
  bind_crash k none = ground arith
  bind_crash k (some socket) = ground arith

  -- The start of the server goes through a null pointer exactly when one of its system calls
  -- fails for another reason than an interruption: `error` cleans up what does not exist yet.
  pub init_server-crash_iff :
      (k : Startup)
      → (init_server h f garbage k ≡ crashed) ↔ ((succeeds k ≡ false) × (k.interrupted ≡ false))
  unfolding init_server
  init_server-crash_iff k = bind_crash k k.descriptor

  -- The outcome, where the server goes on.
  abbrev Keeps : Outcome h → Type 0
  Keeps (running t) = IsConsistent h f t
  Keeps (exited t) = Unit
  Keeps crashed = Unit

  Keeps-outcome : (o : Outcome h) → ((t : Server h) → o ≡ running t → IsConsistent h f t) → Keeps o
  Keeps-outcome (running t) all = all t refl
  Keeps-outcome (exited t) all = tt
  Keeps-outcome crashed all = tt

  init-IsConsistent : (socket : ℕ) → IsConsistent h f (server_init h f garbage socket)
  unfolding server_init
  init-IsConsistent socket k c e = let empty = h.get-init k in absurd (unlike empty e)
    where
      unlike : {o : Option ClientT} → o ≡ none → o ≡ some c → ⊥
      unlike p q = cc

  early_error-Keeps : (interrupted : Bool) → Keeps (early_error h f garbage interrupted)
  unfolding early_error clean
  early_error-Keeps true = tt
  early_error-Keeps false = tt

  unless-Keeps :
      (done : Bool) (failed next : Outcome h)
      → Keeps failed
      → Keeps next
      → Keeps (if not done then failed else next)
  unless-Keeps true failed next kept rest = rest
  unless-Keeps false failed next kept rest = kept

  bind-Keeps : (k : Startup) (o : Option ℕ) → Keeps (bind_and_listen h f garbage k o)
  unfolding bind_and_listen
  bind-Keeps k none = early_error-Keeps k.interrupted
  bind-Keeps k (some socket) =
      let stops = early_error-Keeps k.interrupted in
      unless-Keeps k.bound _ _ stops (
        unless-Keeps k.listening _ _ stops (
          unless-Keeps k.polling _ _ stops
            (unless-Keeps k.registered _ _ stops (init-IsConsistent socket))))

  receive_one-Keeps :
      (w : Wait) (s : Server h) → IsConsistent h f s → Keeps (receive_one h f garbage w s)
  unfolding receive_one error clean
  receive_one-Keeps signalled s old = tt
  receive_one-Keeps (wait_error true) s old = tt
  receive_one-Keeps (wait_error false) s old = tt
  receive_one-Keeps (ready rs) s old =
      Keeps-outcome (handle_connection h f garbage rs s)
        (λ t e. handle_connection-IsConsistent h f garbage rs s old e)

  and_then-Keeps :
      (next : Server h → Outcome h) (o : Outcome h)
      → Keeps o
      → ((t : Server h) → IsConsistent h f t → Keeps (next t))
      → Keeps (and_then h f garbage next o)
  unfolding and_then
  and_then-Keeps next (running t) kept rest = rest t kept
  and_then-Keeps next (exited t) kept rest = tt
  and_then-Keeps next crashed kept rest = tt

  receive-Keeps :
      (ws : List Wait) (s : Server h)
      → IsConsistent h f s
      → Keeps (receive_packets h f garbage ws s)
  unfolding receive_packets
  receive-Keeps [] s old = old
  receive-Keeps (w ∷ ws) s old =
      and_then-Keeps _ (receive_one h f garbage w s) (receive_one-Keeps w s old)
        (λ t kept. receive-Keeps ws t kept)

  -- From its start on, after any number of waits and whatever they bring, a server that goes on
  -- keeps every client under its own socket.
  pub run_server-IsConsistent :
      (argc : ℕ) (k : Startup) (ws : List Wait) {t : Server h}
      → run_server h f garbage argc k ws ≡ running t
      → IsConsistent h f t
  unfolding run_server remind_about_port init_server
  run_server-IsConsistent argc k ws e = elim (Bool-cases (ltb argc 2)) [
    | inl few ↦ let told = rw few at e in cc
    | inr enough ↦
        let served = rw enough at e in
        rw served at (
          and_then-Keeps _ (bind_and_listen h f garbage k k.descriptor) (bind-Keeps k k.descriptor)
            (λ t kept. receive-Keeps ws t kept))
  ]

  -- A SIGINT while the server waits, if the callback that closes the sockets happens to return 0:
  -- every client is told of the shutdown once, the socket of every client is closed and then the
  -- server's own, and the process exits, whatever would have come later.
  signalled_lem :
      (ws : List Wait) (s : Server h)
      → ((e : Entry) → garbage e ≡ pos 0)
      → receive_packets h f garbage (signalled ∷ ws) s
        ≡ exited (record s {
          clients = h.init;
          sent = s.sent ++ messages (λ e. true) (typed_message 10) (h.entries s.clients);
          closed = s.closed ++ spelled h f (h.entries s.clients) ++ s.socket ∷ [];
          threads_done = true;
        })
  unfolding receive_packets receive_one error and_then
  signalled_lem ws s zero = rw (clean_lem h f garbage s zero)
