-- ===== src/Enb/Threads/Fresh.antt =====
-- What the ping thread can do to a client that has been accepted and has sent nothing yet:
-- `accept_client` leaves `last_activity` as `malloc` gave it.
use lte.Base.{ℕ, pos, ◌-ℤ◌, ltb_ℤ, ◌≡◌, refl, ℤ, Bool, true, none, some, [], ◌∷◌, ◌++◌, inl}
use lte.Enb.ClientObject.{ClientT, ClientMap, Format, Entry, put_client_in_hashmap}
use lte.Enb.ClientObject.Laws
use lte.Enb.Server.{Server, running, Accepted, accept_client, accept_descriptor}
use lte.Enb.Packet.Frame.{found}
use lte.Enb.Ping.{drop_clients}
use lte.Enb.Ping.Inactive.{drop_clients_drops}
use lte.Enb.Threads.{live, Step, accept, drop}

-- The record of a client that has been accepted.
abbrev pub fresh : Accepted → ℕ → ClientT
fresh a fd = record a.memory { socket = fd }

module _ (h : ClientMap) (f : Format) (garbage : Entry → ℤ) where
  -- The server that has accepted a client on this descriptor.
  abbrev pub with_fresh : Accepted → ℕ → Server h → Server h
  with_fresh a fd x = record x {
    clients = put_client_in_hashmap h f x.clients fd (fresh a fd);
    watched = x.watched ++ fd ∷ [];
  }

  -- A client that has just been accepted can be dropped before it has sent anything. From every
  -- state in which the event loop waits, `accept_client` is a step that stores the new client's
  -- record, where `accept` gives a descriptor and `epoll_ctl` registers it; and if the memory that
  -- `malloc` gives for the record holds a time of last activity of more than 4000 seconds ago, as
  -- zeroed memory does, the ping thread's round that comes to it is a step from there that deletes
  -- the record and closes the socket, of a client that has been sent nothing.
  pub fresh_client_dropped :
      (x : Server h) (interrupted : Bool) (a : Accepted) (fd : ℕ) (clock : Entry → ℕ)
      → a.descriptor ≡ some fd
      → a.registered ≡ true
      → ltb_ℤ (pos 4000) (pos (clock (f.sprintf fd, fresh a fd)) -ℤ a.memory.last_activity) ≡ true
      → let y = with_fresh a fd x in
        let t = drop_clients h f clock ((f.sprintf fd, fresh a fd) ∷ []) y in
        (accept_client h f interrupted garbage a x ≡ running y)
        × Step h f garbage true (live x none) (live y none)
        × (found h f y fd ≡ some (fresh a fd))
        × Step h f garbage true (live y none) (live t none)
        × (found h f t fd ≡ none)
        × (t.closed ≡ x.closed ++ fd ∷ [])
        × (t.sent ≡ x.sent)
  unfolding accept_client accept_descriptor
  fresh_client_dropped x interrupted a fd clock opened registered silent =
      let entry : Entry = (f.sprintf fd, fresh a fd) in
      let y = with_fresh a fd x in
      let stored = Laws.get-put_self h f x.clients fd (fresh a fd) in
      let (lost, closes, sends) =
        drop_clients_drops h f clock (entry ∷ []) y entry (inl refl) silent in
      (
        simp (opened, registered),
        accept x interrupted a refl (simp (opened, registered)),
        stored,
        drop y none clock (entry ∷ []) refl refl ((refl, stored), tt) refl,
        lost,
        rw silent at closes,
        sends,
      )
