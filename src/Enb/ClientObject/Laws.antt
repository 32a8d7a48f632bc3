-- ===== src/Enb/ClientObject/Laws.antt =====
-- The map of clients seen by socket.
use lte.Base.{ℕ, ◌≡◌, ◌≢◌, none, some, ◌==◌, ==_iff, Bool-cases, inl, inr, ◌∙◌, arith}
use lte.Enb.ClientObject.{
  ClientT, ClientMap, Format, sprintf-ne, get_client_by_socket, put_client_in_hashmap,
  delete_client_from_hashmap,
}

module _ (h : ClientMap) (f : Format) (clients : h.Map) where
  pub get-put_self :
      (socket : ℕ) (c : ClientT)
      → get_client_by_socket h f (put_client_in_hashmap h f clients socket c) socket ≡ some c
  unfolding get_client_by_socket put_client_in_hashmap
  get-put_self socket c = h.get-put_self clients (f.sprintf socket) c

  pub get-put_ne :
      (socket other : ℕ) (c : ClientT)
      → socket ≢ other
      → get_client_by_socket h f (put_client_in_hashmap h f clients socket c) other
        ≡ get_client_by_socket h f clients other
  unfolding get_client_by_socket put_client_in_hashmap
  get-put_ne socket other c ne =
      h.get-put_ne clients (f.sprintf socket) (f.sprintf other) c (sprintf-ne f socket other ne)

  pub get-delete_self :
      (socket : ℕ)
      → get_client_by_socket h f (delete_client_from_hashmap h f clients socket) socket ≡ none
  unfolding get_client_by_socket delete_client_from_hashmap
  get-delete_self socket = h.get-delete_self clients (f.sprintf socket)

  pub get-delete_ne :
      (socket other : ℕ)
      → socket ≢ other
      → get_client_by_socket h f (delete_client_from_hashmap h f clients socket) other
        ≡ get_client_by_socket h f clients other
  unfolding get_client_by_socket delete_client_from_hashmap
  get-delete_ne socket other ne =
      h.get-delete_ne clients (f.sprintf socket) (f.sprintf other) (sprintf-ne f socket other ne)

  -- An insertion loses no client.
  pub put-keeps :
      (socket other : ℕ) (c d : ClientT)
      → get_client_by_socket h f clients other ≡ some d
      → (e : ClientT) × (get_client_by_socket h f (put_client_in_hashmap h f clients socket c) other
          ≡ some e)
  put-keeps socket other c d has = elim (Bool-cases (socket == other)) [
    | inl same ↦ (c, rw (← (==_iff socket other).0 same) (get-put_self socket c))
    | inr apart ↦ (d, get-put_ne socket other c (ground arith) ∙ has)
  ]
