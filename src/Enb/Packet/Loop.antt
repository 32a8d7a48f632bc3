-- ===== src/Enb/Packet/Loop.antt =====
-- The event loop: `accept_client` and `parse_packet` over the events of one `epoll_wait`.
use lte.Base.{
  ℕ, ◌+◌, ◌≡◌, ◌≢◌, ◌⊎◌, refl, ℤ, Option, none, some, inl, inr, arith, Bool-cases, Bool, true,
  false, ◌==◌, List, [], ◌∷◌, sym, ◌∙◌,
}
use lte.Enb.ClientObject.{ClientT, ClientMap, Format, Entry}
use lte.Enb.ClientObject.Laws
use lte.Enb.Server.{
  Server, Outcome, running, exited, crashed, Accepted, error, clean, accept_client,
  accept_descriptor,
}
use lte.Enb.Packet.{
  Packet, read_error, disconnected, arrived, parse_packet, Ready, handle_event, and_then,
  handle_connection,
}
use lte.Enb.Packet.Frame.{found, Frames, packet-frame, parse_packet-crash_iff}

-- The outcome is no crash, and `P` holds of a server that goes on.
abbrev pub Safely : {h : ClientMap} → (Server h → Type 0) → Outcome h → Type 0
Safely P (running t) = P t
Safely P (exited t) = Unit
Safely P crashed = ⊥

module _ (h : ClientMap) (f : Format) where
  -- The socket has a client.
  abbrev pub Has : Server h → ℕ → Type 0
  Has s socket = (c : ClientT) × (found h f s socket ≡ some c)

  -- The listening socket is the same, and no client but that of `socket` was lost.
  abbrev pub Keeps : Server h → ℕ → Server h → Type 0
  Keeps s socket t =
      (t.socket ≡ s.socket) × ((other : ℕ) → other ≢ socket → Has s other → Has t other)

module _ (h : ClientMap) (f : Format) (garbage : Entry → ℤ) where
  pub error-Safely :
      (P : Server h → Type 0) (interrupted : Bool) (s : Server h)
      → Safely P (error h f interrupted garbage s)
  unfolding error clean
  error-Safely P true s = tt
  error-Safely P false s = tt

  pub accept-Safely :
      (socket : ℕ) (interrupted : Bool) (a : Accepted) (o : Option ℕ) (s : Server h)
      → Safely (Keeps h f s socket) (accept_descriptor h f interrupted garbage a o s)
  unfolding accept_descriptor
  accept-Safely socket interrupted a none s = error-Safely _ interrupted s
  accept-Safely socket interrupted a (some fd) s = elim (Bool-cases a.registered) [
    | inr refused ↦ rw refused (error-Safely _ interrupted s)
    | inl registered ↦
        rw registered (refl, λ other ne has. Laws.put-keeps h f s.clients fd other _ has.0 has.1)
  ]

  parse_packet-ne-crashed :
      (socket : ℕ) (p : Packet) (now : ℕ) (s : Server h)
      → Has h f s socket
      → parse_packet h f garbage socket p now s ≢ crashed
  unfolding parse_packet
  parse_packet-ne-crashed socket (read_error i) now s has e = rw e at (error-Safely (λ t. Unit) i s)
  parse_packet-ne-crashed socket disconnected now s has e = cc
  parse_packet-ne-crashed socket (arrived m) now s has e =
      let absent = ((parse_packet-crash_iff h f garbage socket m now s).0 e).1 in
      let present = has.1 in cc

  Keeps-outcome :
      (socket : ℕ) (s : Server h) (o : Outcome h)
      → o ≢ crashed
      → ((other : ℕ) → socket ≢ other → Frames h f other s o)
      → Safely (Keeps h f s socket) o
  Keeps-outcome socket s (running t) safe frames = (
    (frames (socket + 1) (omega arith)).1,
    λ other ne has. (has.0, (frames other (λ e. ne (sym e))).0 ∙ has.1),
  )
  Keeps-outcome socket s (exited t) safe frames = tt
  Keeps-outcome socket s crashed safe frames = safe refl

  parse-Safely :
      (socket : ℕ) (p : Packet) (now : ℕ) (s : Server h)
      → Has h f s socket
      → Safely (Keeps h f s socket) (parse_packet h f garbage socket p now s)
  parse-Safely socket p now s has =
      Keeps-outcome socket s _ (parse_packet-ne-crashed socket p now s has)
        (λ other ne. packet-frame h f garbage socket other p now s ne)

  -- The kernel reports the listening socket and sockets of clients.
  abbrev pub IsKnown : Server h → Ready → Type 0
  IsKnown s r = (r.descriptor ≡ s.socket) ⊎ Has h f s r.descriptor

  event-Safely :
      (r : Ready) (s : Server h)
      → IsKnown s r
      → Safely (Keeps h f s r.descriptor) (handle_event h f garbage r s)
  unfolding handle_event accept_client
  event-Safely r s known = elim (Bool-cases (r.descriptor == s.socket)) [
    | inl listening ↦
        rw listening (accept-Safely r.descriptor r.interrupted r.accepted r.accepted.descriptor s)
    | inr client ↦ rw client (parse-Safely r.descriptor r.packet r.now s (has known client))
  ]
    where
      has : IsKnown s r → (r.descriptor == s.socket) ≡ false → Has h f s r.descriptor
      has (inl e) client = ground arith
      has (inr c) client = c

  -- Each descriptor is reported once.
  abbrev pub NotIn : ℕ → List Ready → Type 0
  NotIn d [] = Unit
  NotIn d (r ∷ rs) = (r.descriptor ≢ d) × NotIn d rs

  abbrev pub AreReady : Server h → List Ready → Type 0
  AreReady s [] = Unit
  AreReady s (r ∷ rs) = IsKnown s r × NotIn r.descriptor rs × AreReady s rs

  AreReady-Keeps :
      (d : ℕ) (s t : Server h) (rs : List Ready)
      → Keeps h f s d t
      → NotIn d rs
      → AreReady s rs
      → AreReady t rs
  AreReady-Keeps d s t [] keeps apart ready = tt
  AreReady-Keeps d s t (r ∷ rs) keeps apart ready =
      (known ready.0, ready.1, AreReady-Keeps d s t rs keeps apart.1 ready.2)
    where
      known : IsKnown s r → IsKnown t r
      known (inl e) = inl (e ∙ sym keeps.0)
      known (inr has) = inr (keeps.1 r.descriptor apart.0 has)

  -- One turn of the event loop never crashes, whatever arrives and however `accept`, `read` and
  -- `epoll_ctl` turn out: every event is for the listening socket or for a socket with a client,
  -- and none is reported twice.
  pub handle_connection_safe :
      (rs : List Ready) (s : Server h)
      → AreReady s rs
      → handle_connection h f garbage rs s ≢ crashed
  unfolding handle_connection
  handle_connection_safe [] s ready e = cc
  handle_connection_safe (r ∷ rs) s ready e =
      go (handle_event h f garbage r s) (event-Safely r s ready.0)
        (λ t still. handle_connection_safe rs t still) e
    where
      go :
          (o : Outcome h)
          → Safely (Keeps h f s r.descriptor) o
          → ((t : Server h) → AreReady t rs → handle_connection h f garbage rs t ≢ crashed)
          → and_then h f garbage (handle_connection h f garbage rs) o ≢ crashed
      go (running t) keeps rest e =
          rest t (AreReady-Keeps r.descriptor s t rs keeps ready.1 ready.2) e
      go (exited t) keeps rest e = cc
      go crashed keeps rest e = keeps
