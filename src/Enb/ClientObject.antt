-- ===== src/Enb/ClientObject.antt =====
-- client_object.h and client_object.c: a client of the eNodeB, and the hash map of clients.
--
-- lib/hashmap.c is another project's library and is not modelled: `ClientMap` holds the calls that
-- the server makes of it, with the behaviour that lib/hashmap.h documents. `Format` holds `sprintf`
-- with "%d" and `atoi`. The map owns its clients and each is reached through its entry alone, so
-- that a write through the pointer that `hashmap_get` returns is a `put` at the same key. A
-- descriptor is below 10 ^ 7, so that its digits fit the `char key[8]` of the source. What `malloc`
-- leaves in a `battery_state` is taken to be one of its two values.
pub mod Laws
use mathlib.Core.List.{Mem, Nodup}
use lte.Base.{ℕ, ◌≡◌, ◌≢◌, ◌↔◌, ℤ, Bool, Option, none, some, List, [], ◌∷◌, map, sym, ap, ◌∙◌}

pub data BatteryState : Type 0 where
  ok low : BatteryState

-- `struct client`; `rnti` and `preamble_index` are bit patterns, `time_t` is signed.
pub record ClientT : Type 0 where
  pub rnti : ℕ
  pub preamble_index : ℕ
  pub first_connection_timestamp : ℤ
  pub last_activity : ℤ
  pub mcc : ℕ
  pub mnc : ℕ
  pub battery_state : BatteryState
  pub socket : ℕ

abbrev pub Key : Type 0
Key = List ℕ

abbrev pub Entry : Type 0
Entry = Key × ClientT

abbrev pub key_of_entry : Entry → Key
key_of_entry (k, c) = k

-- `hashmap_init`, `hashmap_get`, `hashmap_put`, `hashmap_delete`, and the entries in the order in
-- which `hashmap_iter` visits them.
pub record ClientMap : Type 1 where
  pub Map : Type 0
  pub init : Map
  pub get : Map → Key → Option ClientT
  pub put : Map → Key → ClientT → Map
  pub delete : Map → Key → Map
  pub entries : Map → List Entry
  pub get-init : (k : Key) → get init k ≡ none
  pub get-put_self : (m : Map) (k : Key) (c : ClientT) → get (put m k c) k ≡ some c
  pub get-put_ne : (m : Map) (k j : Key) (c : ClientT) → k ≢ j → get (put m k c) j ≡ get m j
  pub get-delete_self : (m : Map) (k : Key) → get (delete m k) k ≡ none
  pub get-delete_ne : (m : Map) (k j : Key) → k ≢ j → get (delete m k) j ≡ get m j
  pub mem-entries : (m : Map) (k : Key) (c : ClientT) → Mem (k, c) (entries m) ↔ (get m k ≡ some c)
  pub entries-Nodup : (m : Map) → Nodup (map key_of_entry (entries m))

-- `sprintf(key, "%d", socket)` and `atoi(key)`.
pub record Format : Type 0 where
  pub sprintf : ℕ → Key
  pub atoi : Key → ℕ
  pub atoi-sprintf : (n : ℕ) → atoi (sprintf n) ≡ n

-- Different sockets have different keys.
pub sprintf-ne : (f : Format) (m n : ℕ) → m ≢ n → f.sprintf m ≢ f.sprintf n
sprintf-ne f m n h e = h (sym (f.atoi-sprintf m) ∙ (ap f.atoi e ∙ f.atoi-sprintf n))

module _ (h : ClientMap) (f : Format) where
  unfoldable pub get_client_by_socket : h.Map → ℕ → Option ClientT
  get_client_by_socket clients socket = h.get clients (f.sprintf socket)

  unfoldable pub put_client_in_hashmap : h.Map → ℕ → ClientT → h.Map
  put_client_in_hashmap clients socket c = h.put clients (f.sprintf socket) c

  unfoldable pub delete_client_from_hashmap : h.Map → ℕ → h.Map
  delete_client_from_hashmap clients socket = h.delete clients (f.sprintf socket)
