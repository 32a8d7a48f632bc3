-- ===== src/Enb/Directory/Refine.antt =====
-- The event loop implements the directory.
use mathlib.Core.List.{append-nil}
use mathlib.Core.Path.{fun_ext}
use lte.Base.{
  ℕ, ◌≡◌, refl, sym, ◌==◌, ==_iff, ℤ, Bool, true, false, Bool-cases, inl, inr, Option, none, some,
  List, [], ◌∷◌, arith,
}
use lte.Message.{
  SMessage, EMessageType, decode_type, get_ra_rnti, random_access_request, rrc_request,
  ue_battery_low, ue_battery_high, pong, ue_off,
}
use lte.Enb.ClientObject.{
  ClientT, ClientMap, Format, Entry, get_client_by_socket, put_client_in_hashmap,
  delete_client_from_hashmap,
}
use lte.Enb.ClientObject.Laws
use lte.Enb.Server.{
  Server, Outcome, running, exited, crashed, Accepted, error, clean, send, close_socket,
  update_found, update_client_by_ra_rnti_data, accept_descriptor, accept_client,
}
use lte.Enb.Packet.{
  Packet, read_error, disconnected, arrived, dispatch, parse_packet, update_client, setup_found,
  handle_pong, handle_low_battery_request, handle_high_battery_request, handle_client_power_off,
  send_rrc_setup, send_random_access_response, handle_random_access_request, extract_preamble_index,
  Ready, handle_event, and_then, handle_connection,
}
use lte.Enb.Packet.Frame.{found}
use lte.Enb.Directory.{
  Directory, keeps, known, admit, fate, Verdict, serving, stopped, faulty, assign, settle_fate,
  serve_packet, admit_descriptor, serve_event, and_serve, serve,
}

module _ (h : ClientMap) (f : Format) where
  abbrev pub view : Server h → Directory
  view s = record { listening = s.socket; clients = λ d. found h f s d; replies = s.sent }

  abbrev pub view_outcome : Outcome h → Verdict
  view_outcome (running s) = serving (view s)
  view_outcome (exited s) = stopped
  view_outcome crashed = faulty

  found-put :
      (clients : h.Map) (d : ℕ) (c : ClientT)
      → (λ j. get_client_by_socket h f (put_client_in_hashmap h f clients d c) j)
        ≡ assign (λ j. get_client_by_socket h f clients j) d (some c)
  found-put clients d c = fun_ext (λ j. elim (Bool-cases (d == j)) [
    | inl same ↦ rw same (rw (← (==_iff d j).0 same) (Laws.get-put_self h f clients d c))
    | inr apart ↦ rw apart (Laws.get-put_ne h f clients d j c (ground arith))
  ])

  pub found-delete :
      (clients : h.Map) (d : ℕ)
      → (λ j. get_client_by_socket h f (delete_client_from_hashmap h f clients d) j)
        ≡ assign (λ j. get_client_by_socket h f clients j) d none
  found-delete clients d = fun_ext (λ j. elim (Bool-cases (d == j)) [
    | inl same ↦ rw same (rw (← (==_iff d j).0 same) (Laws.get-delete_self h f clients d))
    | inr apart ↦ rw apart (Laws.get-delete_ne h f clients d j (ground arith))
  ])

  pub assign_same :
      (clients : ℕ → Option ClientT) (d : ℕ) (o : Option ClientT)
      → clients d ≡ o
      → clients ≡ assign clients d o
  assign_same clients d o e = fun_ext (λ j. elim (Bool-cases (d == j)) [
    | inl same ↦ rw same (rw (← (==_iff d j).0 same) e)
    | inr apart ↦ rw apart
  ])

  -- A directory with this listening socket, these clients and these replies.
  pub same_verdict :
      {l l' : ℕ} (r r' : ℕ → Option ClientT) (ms ms' : List (ℕ × SMessage))
      → l ≡ l'
      → r ≡ r'
      → ms ≡ ms'
      → serving (record { listening = l; clients = r; replies = ms })
        ≡ serving (record { listening = l'; clients = r'; replies = ms' })
  same_verdict r r' ms ms' o p q = rw (o, p, q)

  update_client-view :
      (o : Option ClientT) (change : ClientT → ClientT) (d : ℕ) (s : Server h)
      → view_outcome (update_client h f o change d s)
        ≡ settle_fate d (known o (λ c. keeps (some (change c)) [])) (view s)
  unfolding update_client
  update_client-view none change d s = refl
  update_client-view (some c) change d s =
      same_verdict _ _ _ _ refl (found-put s.clients d (change c)) (sym (append-nil _))

  setup-view :
      (o : Option ClientT) (m : SMessage) (now d : ℕ) (s : Server h)
      → found h f s d ≡ o
      → view_outcome (setup_found h f o d s)
        ≡ settle_fate d (fate (some rrc_request) m now o) (view s)
  unfolding setup_found send
  setup-view none m now d s e = refl
  setup-view (some c) m now d s e = same_verdict _ _ _ _ refl (assign_same _ d (some c) e) refl

  update_found-view :
      (o : Option ClientT) (d now r : ℕ) (s : Server h)
      → found h f s d ≡ o
      → (λ j. found h f (update_found h f o d (extract_preamble_index r) now r s) j)
        ≡ assign (λ j. found h f s j) d (admit r now o)
  unfolding update_found
  update_found-view none d now r s e = assign_same _ d none e
  update_found-view (some c) d now r s e = found-put s.clients d _

  update_found-rest :
      (o : Option ClientT) (d i now r : ℕ) (s : Server h)
      → let t = update_found h f o d i now r s in (t.sent ≡ s.sent) × (t.socket ≡ s.socket)
  unfolding update_found
  update_found-rest none d i now r s = (refl, refl)
  update_found-rest (some c) d i now r s = (refl, refl)

  random_access-view :
      (d : ℕ) (m : SMessage) (now : ℕ) (s : Server h)
      → view_outcome (running (handle_random_access_request h f d m now s))
        ≡ settle_fate d (fate (some random_access_request) m now (found h f s d)) (view s)
  unfolding handle_random_access_request update_client_by_ra_rnti_data send_random_access_response
      send
  random_access-view d m now s =
      let r = get_ra_rnti m in
      let t = send_random_access_response h f d (extract_preamble_index r) now s in
      let (replies, listening) =
        update_found-rest (found h f s d) d (extract_preamble_index r) now r t in
      same_verdict _ _ _ _ listening (update_found-view (found h f s d) d now r t refl) replies

  pub dispatch-view :
      (t : Option EMessageType) (d : ℕ) (m : SMessage) (now : ℕ) (s : Server h)
      → view_outcome (dispatch h f t d m now s)
        ≡ settle_fate d (fate t m now (found h f s d)) (view s)
  unfolding dispatch send_rrc_setup handle_low_battery_request handle_high_battery_request
      handle_pong handle_client_power_off close_socket
  dispatch-view (some random_access_request) d m now s = random_access-view d m now s
  dispatch-view (some rrc_request) d m now s = setup-view (found h f s d) m now d s refl
  dispatch-view (some ue_battery_low) d m now s = update_client-view (found h f s d) _ d s
  dispatch-view (some ue_battery_high) d m now s = update_client-view (found h f s d) _ d s
  dispatch-view (some pong) d m now s = update_client-view (found h f s d) _ d s
  dispatch-view (some ue_off) d m now s =
      same_verdict _ _ _ _ refl (found-delete s.clients d) (sym (append-nil _))
  dispatch-view _ d m now s =
      same_verdict _ _ _ _ refl (assign_same _ d _ refl) (sym (append-nil _))

module _ (h : ClientMap) (f : Format) (garbage : Entry → ℤ) where
  pub error-view :
      (interrupted : Bool) (s : Server h)
      → view_outcome h f (error h f interrupted garbage s) ≡ stopped
  unfolding error clean
  error-view true s = refl
  error-view false s = refl

  pub packet-view :
      (d : ℕ) (p : Packet) (now : ℕ) (s : Server h)
      → view_outcome h f (parse_packet h f garbage d p now s) ≡ serve_packet d p now (view h f s)
  unfolding parse_packet close_socket
  packet-view d (read_error i) now s = error-view i s
  packet-view d disconnected now s =
      same_verdict h f _ _ _ _ refl (found-delete h f s.clients d) (sym (append-nil _))
  packet-view d (arrived m) now s = dispatch-view h f (decode_type m.message_type) d m now s

  pub accept-view :
      (interrupted : Bool) (a : Accepted) (o : Option ℕ) (s : Server h)
      → view_outcome h f (accept_descriptor h f interrupted garbage a o s)
        ≡ admit_descriptor a o (view h f s)
  unfolding accept_descriptor
  accept-view interrupted a none s = error-view interrupted s
  accept-view interrupted a (some fd) s = elim (Bool-cases a.registered) [
    | inl registered ↦
        rw registered
          (same_verdict h f _ _ _ _ refl (found-put h f s.clients fd _) (sym (append-nil _)))
    | inr refused ↦ rw refused (error-view interrupted s)
  ]

  event-view :
      (e : Ready) (s : Server h)
      → view_outcome h f (handle_event h f garbage e s) ≡ serve_event e (view h f s)
  unfolding handle_event accept_client
  event-view e s = elim (Bool-cases (e.descriptor == s.socket)) [
    | inl listening ↦ rw listening (accept-view e.interrupted e.accepted e.accepted.descriptor s)
    | inr client ↦ rw client (packet-view e.descriptor e.packet e.now s)
  ]

  -- The event loop refines the directory: whatever the events of one `epoll_wait` are, the server
  -- goes on, exits or goes through a null pointer exactly when the directory serves on, stops or
  -- finds a fault, and a server that goes on has the directory's clients and has sent its replies.
  pub handle_connection-refines_serve :
      (es : List Ready) (s : Server h)
      → view_outcome h f (handle_connection h f garbage es s) ≡ serve es (view h f s)
  unfolding handle_connection
  handle_connection-refines_serve [] s = refl
  handle_connection-refines_serve (e ∷ es) s =
      rw (← event-view e s)
        (go (handle_event h f garbage e s) (λ t. handle_connection-refines_serve es t))
    where
      go :
          (o : Outcome h)
          → ((t : Server h)
              → view_outcome h f (handle_connection h f garbage es t) ≡ serve es (view h f t))
          → view_outcome h f (and_then h f garbage (handle_connection h f garbage es) o)
            ≡ and_serve (serve es) (view_outcome h f o)
      go (running t) rest = rest t
      go (exited t) rest = refl
      go crashed rest = refl
