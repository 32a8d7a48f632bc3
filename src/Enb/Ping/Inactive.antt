-- ===== src/Enb/Ping/Inactive.antt =====
-- Whom a round of `handle_client_inactivity` drops, whatever the traversal visits.
use mathlib.Core.Path.{subst}
use mathlib.Core.List.{append-nil, append_assoc}
use lte.Base.{
  ℕ, ◌≡◌, ◌≢◌, refl, ◌⊎◌, Bool, true, false, if◌then◌else◌, Bool-cases, inl, inr, List, [], ◌∷◌,
  ◌++◌, arith, ◌∙◌, none, some, ◌==◌, ==_iff, ltb_ℤ, pos, ◌-ℤ◌,
}
use lte.Enb.ClientObject.{
  ClientT, ClientMap, Format, Entry, Key, get_client_by_socket, delete_client_from_hashmap,
}
use lte.Enb.ClientObject.Laws
use lte.Enb.Server.{Server, hashmap_iter, close_socket}
use lte.Enb.Packet.Frame.{found}
use lte.Enb.Ping.{should_ping, should_kick, handle_client_inactivity, drop_clients}

-- Whoever is dropped was also due for a ping in the same second.
should_kick-should_ping :
    (now : ℕ) (c : ClientT) → should_kick now c ≡ true → should_ping now c ≡ true
unfolding should_kick should_ping
should_kick-should_ping now c e = ground arith

-- At the second `now`, the client has not been heard of for more than 4000 seconds.
abbrev pub unheard : ℕ → ClientT → Bool
unheard now c = ltb_ℤ (pos 4000) (pos now -ℤ c.last_activity)

pub should_kick-unheard : (now : ℕ) (c : ClientT) → should_kick now c ≡ unheard now c
unfolding should_kick
should_kick-unheard now c = refl

module _ (h : ClientMap) (f : Format) (clock : Entry → ℕ) where
  -- An entry of the map, stored under its client's socket.
  abbrev pub IsEntry : Server h → Entry → Type 0
  IsEntry s (k, c) = (k ≡ f.sprintf c.socket) × (found h f s c.socket ≡ some c)

  abbrev pub AreEntries : Server h → List Entry → Type 0
  AreEntries s [] = Unit
  AreEntries s (e ∷ es) = IsEntry s e × AreEntries s es

  abbrev idle : Entry → Bool
  idle e = unheard (clock e) e.1

  abbrev round_of : List Entry → Server h → Server h
  round_of es t = hashmap_iter (λ e. handle_client_inactivity h f (clock e) e) es t

  same_entry :
      (s : Server h) (k : Key) (d c : ClientT)
      → k ≡ f.sprintf d.socket
      → found h f s d.socket ≡ some d
      → found h f s c.socket ≡ some c
      → d.socket ≡ c.socket
      → idle (k, d) ≡ true
      → unheard (clock (f.sprintf c.socket, c)) c ≡ false
      → ⊥
  same_entry s k d c stored kept here e silent quiet = cc

  -- The visited entries were entries at the start; a client that stays is found throughout.
  stays :
      (es : List Entry) (s t : Server h) (c : ClientT)
      → AreEntries s es
      → unheard (clock (f.sprintf c.socket, c)) c ≡ false
      → found h f s c.socket ≡ some c
      → found h f t c.socket ≡ some c
      → found h f (round_of es t) c.socket ≡ some c
  unfolding hashmap_iter handle_client_inactivity close_socket
  stays [] s t c entries quiet here now = now
  stays ((k, d) ∷ es) s t c entries quiet here now = elim (Bool-cases (idle (k, d))) [
    | inr busy ↦
        rw (should_kick-unheard (clock (k, d)) d, busy) (stays es s t c entries.1 quiet here now)
    | inl silent ↦
        let apart : d.socket ≢ c.socket =
          λ e. same_entry s k d c (entries.0).0 (entries.0).1 here e silent quiet in
        rw (should_kick-unheard (clock (k, d)) d, silent)
          (stays es s _ c entries.1 quiet here
            (Laws.get-delete_ne h f t.clients d.socket c.socket apart ∙ now))
  ]

  gone :
      (es : List Entry) (t : Server h) (x : ℕ)
      → found h f t x ≡ none
      → found h f (round_of es t) x ≡ none
  unfolding hashmap_iter handle_client_inactivity close_socket
  gone [] t x now = now
  gone ((k, d) ∷ es) t x now = elim (Bool-cases (idle (k, d))) [
    | inr busy ↦ rw (should_kick-unheard (clock (k, d)) d, busy) (gone es t x now)
    | inl silent ↦
        rw (should_kick-unheard (clock (k, d)) d, silent)
          (gone es _ x (deleted (Bool-cases (d.socket == x))))
  ]
    where
      deleted :
          ((d.socket == x) ≡ true) ⊎ ((d.socket == x) ≡ false)
          → get_client_by_socket h f (delete_client_from_hashmap h f t.clients d.socket) x ≡ none
      deleted (inl same) = rw ((==_iff d.socket x).0 same) (Laws.get-delete_self h f t.clients x)
      deleted (inr apart) = Laws.get-delete_ne h f t.clients d.socket x (ground arith) ∙ now

  abbrev pub Visits : Entry → List Entry → Type 0
  Visits e [] = ⊥
  Visits e (x ∷ xs) = (x ≡ e) ⊎ Visits e xs

  dropped :
      (es : List Entry) (t : Server h) (e : Entry)
      → Visits e es
      → idle e ≡ true
      → found h f (round_of es t) e.1.socket ≡ none
  unfolding hashmap_iter handle_client_inactivity close_socket
  dropped [] t e m silent = absurd m
  dropped ((k, d) ∷ es) t e (inl same) silent =
      subst (λ x. idle x ≡ true → found h f (round_of ((k, d) ∷ es) t) x.1.socket ≡ none) same
        (λ here.
          rw (should_kick-unheard (clock (k, d)) d, here)
            (gone es _ d.socket (Laws.get-delete_self h f t.clients d.socket)))
        silent
  dropped ((k, d) ∷ es) t e (inr later) silent = elim (Bool-cases (idle (k, d))) [
    | inr busy ↦ rw (should_kick-unheard (clock (k, d)) d, busy) (dropped es t e later silent)
    | inl quiet ↦ rw (should_kick-unheard (clock (k, d)) d, quiet) (dropped es _ e later silent)
  ]

  -- The sockets of the silent clients of `es`, in order.
  abbrev pub kicked : List Entry → List ℕ
  kicked [] = []
  kicked (e ∷ es) = let rest = kicked es in if idle e then e.1.socket ∷ rest else rest

  closes :
      (es : List Entry) (t : Server h)
      → let t' = round_of es t in (t'.closed ≡ t.closed ++ kicked es) × (t'.sent ≡ t.sent)
  unfolding hashmap_iter handle_client_inactivity close_socket
  closes [] t = (rw append-nil, refl)
  closes ((k, d) ∷ es) t = elim (Bool-cases (idle (k, d))) [
    | inr busy ↦ rw (should_kick-unheard (clock (k, d)) d, busy) (closes es t)
    | inl silent ↦
        rw (should_kick-unheard (clock (k, d)) d, silent)
          ((closes es _).0 ∙ rw append_assoc refl, (closes es _).1)
  ]

  -- Whatever entries of the map a round visits, and in whatever order, a client that was heard of
  -- within 4000 seconds keeps its record.
  pub drop_clients_keeps :
      (visited : List Entry) (s : Server h) (c : ClientT)
      → AreEntries s visited
      → unheard (clock (f.sprintf c.socket, c)) c ≡ false
      → found h f s c.socket ≡ some c
      → found h f (drop_clients h f clock visited s) c.socket ≡ some c
  unfolding drop_clients
  drop_clients_keeps visited s c entries quiet here = stays visited s s c entries quiet here here

  pub drop_clients-sends :
      (visited : List Entry) (s : Server h) → (drop_clients h f clock visited s).sent ≡ s.sent
  unfolding drop_clients
  drop_clients-sends visited s = (closes visited s).1

  -- A visited client that was not heard of for more than 4000 seconds has lost its record after
  -- the round; the sockets of the visited clients of which that is true, and no others, are closed
  -- in the round; and the round sends nothing.
  pub drop_clients_drops :
      (visited : List Entry) (s : Server h) (e : Entry)
      → Visits e visited
      → unheard (clock e) e.1 ≡ true
      → let t = drop_clients h f clock visited s in
        (found h f t e.1.socket ≡ none)
        × (t.closed ≡ s.closed ++ kicked visited)
        × (t.sent ≡ s.sent)
  unfolding drop_clients
  drop_clients_drops visited s e m silent =
      (dropped visited s e m silent, (closes visited s).0, (closes visited s).1)
