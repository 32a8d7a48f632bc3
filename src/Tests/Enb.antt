-- ===== src/Tests/Enb.antt =====
-- Tests of the eNodeB, over a concrete map of clients.
use lte.Base.{
  ℕ, ◌≡◌, ◌≢◌, ◌↔◌, refl, inl, inr, arith, ℤ, pos, true, false, none, some, List, [], ◌∷◌,
}
use lte.Message.{SMessage, set_ra_rnti, decode_type}
use lte.Enb.ClientObject.{ClientT, Entry, ok, get_client_by_socket, put_client_in_hashmap}
use lte.Enb.Server.{Server, running, crashed, Accepted, typed_message}
use lte.Enb.Packet.{
  Packet, disconnected, arrived, parse_packet, handle_pong, dispatch, Ready, handle_connection,
  handle_event, and_then,
}
use lte.Enb.Packet.Frame.{found, uses_record, parse_packet-crash_iff}
use lte.Enb.Packet.Loop.{handle_connection_safe}
use lte.Enb.Ping.{ping_clients, drop_clients}
use lte.Enb.Ping.Rounds.{overdue, Sends, messages, ping_clients_lem}
use lte.Enb.Ping.Inactive.{kicked, drop_clients_keeps, drop_clients_drops}
use lte.Enb.Consistent.{IsConsistent}
use lte.Tests.Maps.{log_map, one_digit}

abbrev pub phone : ClientT
phone = record {
  rnti = 0;
  preamble_index = 0;
  first_connection_timestamp = pos 1;
  last_activity = pos 1;
  mcc = 0;
  mnc = 0;
  battery_state = ok;
  socket = 5;
}

-- A server that listens on descriptor 3, with one client on descriptor 5.
abbrev pub one_client : Server log_map
one_client = record {
  socket = 3;
  clients = (5 ∷ [], some phone) ∷ [];
  sent = [];
  closed = [];
  watched = [];
  threads_done = false;
}

abbrev pub zero_result : Entry → ℤ
zero_result e = pos 0

abbrev pub at_time : ℕ → Entry → ℕ
at_time n e = n

abbrev pub known : found log_map one_digit one_client 5 ≡ some phone
unfolding get_client_by_socket
known = refl

abbrev pong_message : SMessage
pong_message = typed_message 8

abbrev request : SMessage
request = set_ra_rnti 0xc001 (typed_message 0)

-- The client that another pongs, seen from the first.
abbrev ponged : Server log_map
ponged = record one_client {
  clients = (5 ∷ [], some (record phone { last_activity = pos 9 })) ∷ one_client.clients;
}

pongs :
    parse_packet log_map one_digit zero_result 5 (arrived pong_message) 9 one_client
    ≡ running ponged
unfolding parse_packet dispatch handle_pong get_client_by_socket put_client_in_hashmap
pongs = refl

parse_packet-crash_iff_example :
    (parse_packet log_map one_digit zero_result 6 (arrived pong_message) 9 one_client ≡ crashed) ↔ (
      (uses_record log_map one_digit (decode_type 8) ≡ true)
      × (found log_map one_digit one_client 6 ≡ none))
parse_packet-crash_iff_example =
    parse_packet-crash_iff log_map one_digit zero_result 6 pong_message 9 one_client

abbrev new_client : Accepted
new_client = record { descriptor = some 6; memory = phone; registered = true }

abbrev pub event : ℕ → Packet → Ready
event d p = record {
  descriptor = d;
  accepted = new_client;
  interrupted = false;
  packet = p;
  now = 9;
}

-- A connection and a pong.
abbrev batch : List Ready
batch = event 3 disconnected ∷ event 5 (arrived pong_message) ∷ []

handle_connection_safe_example :
    handle_connection log_map one_digit zero_result batch one_client ≢ crashed
handle_connection_safe_example =
    handle_connection_safe log_map one_digit zero_result batch one_client
      (inl refl, (omega arith, tt), (inr (phone, known), tt, tt))

pub one_client-IsConsistent : IsConsistent log_map one_digit one_client
one_client-IsConsistent [] c e = cc
one_client-IsConsistent (x ∷ y ∷ k) c e = ground arith
one_client-IsConsistent (x ∷ []) c e = ground arith

ping_clients_lem_example :
    Sends log_map one_digit
      (messages (λ e. overdue 9 e.1) (typed_message 7) (log_map.entries one_client.clients))
      one_client
      (ping_clients log_map one_digit (at_time 9) one_client)
ping_clients_lem_example = ping_clients_lem log_map one_digit (at_time 9) one_client

drop_clients_keeps_example :
    found log_map one_digit
      (drop_clients log_map one_digit (at_time 9) ((5 ∷ [], phone) ∷ []) one_client)
      5
    ≡ some phone
drop_clients_keeps_example =
    drop_clients_keeps log_map one_digit (at_time 9) ((5 ∷ [], phone) ∷ []) one_client phone
      ((refl, known), tt) refl known

drop_clients_drops_example :
    let t = drop_clients log_map one_digit (at_time 5000) ((5 ∷ [], phone) ∷ []) one_client in
    (found log_map one_digit t 5 ≡ none)
    × (t.closed ≡ kicked log_map one_digit (at_time 5000) ((5 ∷ [], phone) ∷ []))
    × (t.sent ≡ [])
drop_clients_drops_example =
    drop_clients_drops log_map one_digit (at_time 5000) ((5 ∷ [], phone) ∷ []) one_client
      (5 ∷ [], phone) (inl refl) refl

pong_only :
    handle_connection log_map one_digit zero_result (event 5 (arrived pong_message) ∷ []) one_client
    ≡ running ponged
unfolding handle_connection handle_event and_then parse_packet dispatch handle_pong
    get_client_by_socket
pong_only = pongs
