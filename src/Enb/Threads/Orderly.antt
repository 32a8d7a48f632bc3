-- ===== src/Enb/Threads/Orderly.antt =====
-- The invariant of the eNodeB's threads, and what the rounds of its other threads do to it.
use lte.Base.{
  ℕ, ◌≡◌, ◌≢◌, refl, Bool, true, false, Option, none, some, List, [], ◌∷◌, inl, inr, Bool-cases,
}
use lte.Message.{SMessage}
use lte.Enb.ClientObject.{ClientT, ClientMap, Format, Entry, get_client_by_socket}
use lte.Enb.Server.{Server, Outcome, running, exited, crashed}
use lte.Enb.Packet.Loop.{Safely}
use lte.Enb.Ping.{should_kick, drop_clients}
use lte.Enb.Consistent.{IsConsistent, Stays, delete-Spells}
use lte.Enb.Server.{hashmap_iter, close_socket}
use lte.Enb.Ping.{handle_client_inactivity}
use lte.Enb.Transfer.{Transfer, sent, failed, stuck}
use lte.Enb.Transfer.Clients.Sends.{broadcast_sample-ne-stuck}
use lte.Enb.Transfer.Clients.{Delivery, transfer_to, transfer_clients, after_transfer}
use lte.Enb.Transfer.Clients.{transfer_data}
use lte.Enb.Threads.{State, live, ended, faulted, after, after_thread}

module _ (h : ClientMap) (f : Format) (drops : Bool) where
  -- While nobody is dropped, the message that is being handled comes from a client in the map.
  abbrev Pending : h.Map → Option (ℕ × SMessage) → Type 0
  Pending clients none = Unit
  Pending clients (some (d, m)) =
      drops ≡ false → (c : ClientT) × (get_client_by_socket h f clients d ≡ some c)

  -- Every client is stored under its own socket, and only a drop leads to a fault.
  abbrev pub IsOrderly : State h → Type 0
  IsOrderly (live x p) = IsConsistent h f x × Pending x.clients p
  IsOrderly ended = Unit
  IsOrderly faulted = drops ≡ true

  pub after-IsOrderly :
      (o : Outcome h) → Stays h f o → (o ≡ crashed → drops ≡ true) → IsOrderly (after o)
  after-IsOrderly (running t) kept fault = (kept, tt)
  after-IsOrderly (exited t) kept fault = tt
  after-IsOrderly crashed kept fault = fault refl

  pub Safely-ne-crashed :
      (P : Server h → Type 0) (o : Outcome h) → Safely P o → o ≡ crashed → drops ≡ true
  Safely-ne-crashed P (running t) safe e = cc
  Safely-ne-crashed P (exited t) safe e = cc
  Safely-ne-crashed P crashed safe e = absurd safe

  pub drop-IsConsistent :
      (clock : Entry → ℕ) (visited : List Entry) (x : Server h)
      → IsConsistent h f x
      → IsConsistent h f (drop_clients h f clock visited x)
  unfolding drop_clients hashmap_iter handle_client_inactivity close_socket
  drop-IsConsistent clock [] x old = old
  drop-IsConsistent clock ((k, c) ∷ es) x old = elim (Bool-cases (should_kick (clock (k, c)) c)) [
    | inl silent ↦
        rw silent (drop-IsConsistent clock es _ (delete-Spells h f x.clients c.socket old))
    | inr heard ↦ rw heard (drop-IsConsistent clock es x old)
  ]

  -- After a drop nothing is claimed of the message that is being handled.
  pub drop-Pending :
      (clients : h.Map) (p : Option (ℕ × SMessage)) → drops ≡ true → Pending clients p
  drop-Pending clients none on = tt
  drop-Pending clients (some (d, m)) on = λ off. cc

  -- The transfer thread ends the process, once it has begun.
  pub transfer_clients-ended :
      (p : Option (ℕ × SMessage)) (deliver : Entry → Delivery) (memory : List ℕ) (es : List Entry)
      (x : Server h)
      → after_thread p (transfer_clients h deliver memory es x) ≡ ended
  unfolding transfer_clients
  transfer_clients-ended p deliver memory [] x = refl
  transfer_clients-ended p deliver memory ((k, c) ∷ es) x =
      go (transfer_to h deliver memory (k, c)) (broadcast_sample-ne-stuck _ _ _ _ _ _)
        (λ y. transfer_clients-ended p deliver memory es y)
    where
      go :
          (t : Transfer)
          → t ≢ stuck
          → ((y : Server h) → after_thread p (transfer_clients h deliver memory es y) ≡ ended)
          → after_thread p (after_transfer h c.socket t (transfer_clients h deliver memory es) x)
            ≡ ended
      go (sent ms n) ends rest = rest _
      go (failed ms) ends rest = refl
      go stuck ends rest = absurd (ends refl)

  pub transfer_data-IsOrderly :
      (p : Option (ℕ × SMessage)) (deliver : Entry → Delivery) (memory : List ℕ) (x : Server h)
      → IsConsistent h f x
      → Pending x.clients p
      → IsOrderly (after_thread p (transfer_data h deliver memory x))
  unfolding transfer_data
  transfer_data-IsOrderly p deliver memory x old kept = elim (Bool-cases x.threads_done) [
    | inl told ↦ simp told (old, kept)
    | inr goes ↦ simp (goes, transfer_clients-ended p deliver memory (h.entries x.clients) x) tt
  ]
