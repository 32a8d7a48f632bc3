-- ===== src/Enb/Consistent.antt =====
-- The key of every client in the map spells its socket, through the event loop and the rounds.
use native.Mathlib.Decide.{ℕ_discrete}
use lte.Base.{
  ℕ, ◌≡◌, refl, ℤ, Option, none, some, Bool-cases, Bool, true, false, inl, inr, List, [], ◌∷◌, ◌==◌,
  sym, ◌∙◌, ap,
}
use lte.Message.{
  SMessage, EMessageType, decode_type, random_access_request, rrc_request, ue_battery_low,
  ue_battery_high, pong, ue_off,
}
use lte.Enb.ClientObject.{
  ClientT, ClientMap, Format, Entry, Key, get_client_by_socket, put_client_in_hashmap,
  delete_client_from_hashmap,
}
use lte.Enb.Server.{
  Server, Outcome, running, exited, crashed, Accepted, error, clean, update_found,
  update_client_by_ra_rnti_data, send, close_socket, accept_client, accept_descriptor,
}
use lte.Enb.Packet.{
  Packet, read_error, disconnected, arrived, dispatch, parse_packet, update_client, setup_found,
  handle_pong, handle_low_battery_request, handle_high_battery_request, handle_client_power_off,
  send_rrc_setup, handle_random_access_request, Ready, handle_event, and_then, handle_connection,
}

pub Key-discrete : Discrete Key
Key-discrete = hlevel ℕ_discrete

module _ (h : ClientMap) (f : Format) where
  abbrev pub Spells : h.Map → Type 0
  Spells m = (k : Key) (c : ClientT) → h.get m k ≡ some c → k ≡ f.sprintf c.socket

  -- Every client is stored under its own socket.
  abbrev pub IsConsistent : Server h → Type 0
  IsConsistent s = Spells s.clients

  pub put-Spells :
      (m : h.Map) (socket : ℕ) (d : ClientT)
      → Spells m
      → f.sprintf socket ≡ f.sprintf d.socket
      → Spells (put_client_in_hashmap h f m socket d)
  unfolding put_client_in_hashmap
  put-Spells m socket d old own k c e = elim (Key-discrete (f.sprintf socket) k) [
    | yes here ↦
        let stored = h.get-put_self m (f.sprintf socket) d in
        let same : some d ≡ some c = sym stored ∙ (rw (← here) at e) in sym here ∙ (own ∙ cc)
    | no there ↦ old k c (sym (h.get-put_ne m (f.sprintf socket) k d there) ∙ e)
  ]

  pub delete-Spells :
      (m : h.Map) (socket : ℕ) → Spells m → Spells (delete_client_from_hashmap h f m socket)
  unfolding delete_client_from_hashmap
  delete-Spells m socket old k c e = elim (Key-discrete (f.sprintf socket) k) [
    | yes here ↦ let gone = h.get-delete_self m (f.sprintf socket) in absurd (absent here gone)
    | no there ↦ old k c (sym (h.get-delete_ne m (f.sprintf socket) k there) ∙ e)
  ]
    where
      absent :
          f.sprintf socket ≡ k → h.get (h.delete m (f.sprintf socket)) (f.sprintf socket) ≡ none → ⊥
      absent here gone = cc

  -- The outcome of a step, where the server goes on.
  abbrev pub Stays : Outcome h → Type 0
  Stays (running t) = IsConsistent t
  Stays (exited t) = Unit
  Stays crashed = Unit

  update_client-Stays :
      (change : ClientT → ClientT) (socket : ℕ) (s : Server h) (o : Option ClientT)
      → IsConsistent s
      → ((c : ClientT) → (change c).socket ≡ c.socket)
      → get_client_by_socket h f s.clients socket ≡ o
      → Stays (update_client h f o change socket s)
  unfolding update_client get_client_by_socket
  update_client-Stays change socket s none old same e = tt
  update_client-Stays change socket s (some c) old same e =
      put-Spells s.clients socket (change c) old
        (old (f.sprintf socket) c e ∙ ap f.sprintf (sym (same c)))

  update_found-Stays :
      (index now rnti socket : ℕ) (s : Server h) (o : Option ClientT)
      → IsConsistent s
      → get_client_by_socket h f s.clients socket ≡ o
      → IsConsistent (update_found h f o socket index now rnti s)
  unfolding update_found get_client_by_socket
  update_found-Stays index now rnti socket s none old e = old
  update_found-Stays index now rnti socket s (some c) old e =
      put-Spells s.clients socket _ old (old (f.sprintf socket) c e)

  setup-Stays :
      (o : Option ClientT) (socket : ℕ) (s : Server h)
      → IsConsistent s
      → Stays (setup_found h f o socket s)
  unfolding setup_found send
  setup-Stays none socket s old = tt
  setup-Stays (some c) socket s old = old

  random_access-Stays :
      (socket : ℕ) (m : SMessage) (now : ℕ) (s : Server h)
      → IsConsistent s
      → IsConsistent (handle_random_access_request h f socket m now s)
  unfolding handle_random_access_request update_client_by_ra_rnti_data send
  random_access-Stays socket m now s old = update_found-Stays _ now _ socket _ _ old refl

  pub dispatch-Stays :
      (t : Option EMessageType) (socket : ℕ) (m : SMessage) (now : ℕ) (s : Server h)
      → IsConsistent s
      → Stays (dispatch h f t socket m now s)
  unfolding dispatch send_rrc_setup handle_low_battery_request handle_high_battery_request
      handle_pong handle_client_power_off close_socket
  dispatch-Stays (some random_access_request) socket m now s old =
      random_access-Stays socket m now s old
  dispatch-Stays (some rrc_request) socket m now s old = setup-Stays _ socket s old
  dispatch-Stays (some ue_battery_low) socket m now s old =
      update_client-Stays _ socket s _ old (λ c. refl) refl
  dispatch-Stays (some ue_battery_high) socket m now s old =
      update_client-Stays _ socket s _ old (λ c. refl) refl
  dispatch-Stays (some pong) socket m now s old =
      update_client-Stays _ socket s _ old (λ c. refl) refl
  dispatch-Stays (some ue_off) socket m now s old = delete-Spells s.clients socket old
  dispatch-Stays _ socket m now s old = old

module _ (h : ClientMap) (f : Format) (garbage : Entry → ℤ) where
  pub error-Stays :
      (interrupted : Bool) (s : Server h) → Stays h f (error h f interrupted garbage s)
  unfolding error clean
  error-Stays true s = tt
  error-Stays false s = tt

  pub parse_packet-Stays :
      (socket : ℕ) (p : Packet) (now : ℕ) (s : Server h)
      → IsConsistent h f s
      → Stays h f (parse_packet h f garbage socket p now s)
  unfolding parse_packet close_socket
  parse_packet-Stays socket (read_error i) now s old = error-Stays i s
  parse_packet-Stays socket disconnected now s old = delete-Spells h f s.clients socket old
  parse_packet-Stays socket (arrived m) now s old =
      dispatch-Stays h f (decode_type m.message_type) socket m now s old

  pub accept-Stays :
      (interrupted : Bool) (a : Accepted) (o : Option ℕ) (s : Server h)
      → IsConsistent h f s
      → Stays h f (accept_descriptor h f interrupted garbage a o s)
  unfolding accept_descriptor
  accept-Stays interrupted a none s old = error-Stays interrupted s
  accept-Stays interrupted a (some fd) s old = elim (Bool-cases a.registered) [
    | inl registered ↦ rw registered (put-Spells h f s.clients fd _ old refl)
    | inr refused ↦ rw refused (error-Stays interrupted s)
  ]

  event-Stays :
      (r : Ready) (s : Server h) → IsConsistent h f s → Stays h f (handle_event h f garbage r s)
  unfolding handle_event accept_client
  event-Stays r s old = elim (Bool-cases (r.descriptor == s.socket)) [
    | inl listening ↦
        rw listening (accept-Stays r.interrupted r.accepted r.accepted.descriptor s old)
    | inr client ↦ rw client (parse_packet-Stays r.descriptor r.packet r.now s old)
  ]

  connection-Stays :
      (rs : List Ready) (s : Server h)
      → IsConsistent h f s
      → Stays h f (handle_connection h f garbage rs s)
  unfolding handle_connection
  connection-Stays [] s old = old
  connection-Stays (r ∷ rs) s old =
      go (handle_event h f garbage r s) (event-Stays r s old) (λ t. connection-Stays rs t)
    where
      go :
          (o : Outcome h)
          → Stays h f o
          → ((t : Server h) → IsConsistent h f t → Stays h f (handle_connection h f garbage rs t))
          → Stays h f (and_then h f garbage (handle_connection h f garbage rs) o)
      go (running t) kept rest = rest t kept
      go (exited t) kept rest = tt
      go crashed kept rest = tt

  -- The event loop keeps every client under its own socket: whatever is accepted and whatever
  -- arrives, if that held before the events of one `epoll_wait` and the server goes on, it holds
  -- after them.
  pub handle_connection-IsConsistent :
      (rs : List Ready) (s : Server h) {t : Server h}
      → IsConsistent h f s
      → handle_connection h f garbage rs s ≡ running t
      → IsConsistent h f t
  handle_connection-IsConsistent rs s old e = rw e at (connection-Stays rs s old)
