-- ===== src/Tests/Start.antt =====
-- Tests of the eNodeB's start and of its endless loop.
use lte.Base.{◌≡◌, ◌↔◌, refl, true, false, none, some, List, [], ◌∷◌}
use lte.Enb.ClientObject.{delete_client_from_hashmap, put_client_in_hashmap}
use lte.Enb.Server.{Server, running, crashed, close_socket, accept_client}
use lte.Enb.Packet.{disconnected, parse_packet, and_then, handle_connection}
use lte.Enb.Start.{
  Startup, Wait, ready, init_server, server_init, receive_one, receive_packets, run_server,
}
use lte.Enb.Start.Reach.{succeeds, init_server-crash_iff}
use lte.Tests.Maps.{log_map, one_digit}
use lte.Tests.Enb.{phone, zero_result, event}

abbrev pub good_startup : Startup
good_startup = record {
  descriptor = some 3;
  bound = true;
  listening = true;
  polling = true;
  registered = true;
  interrupted = false;
}

abbrev port_taken : Startup
port_taken = record good_startup { bound = false }

init_server-crash_iff_example :
    (init_server log_map one_digit zero_result port_taken ≡ crashed)
    ↔ ((succeeds port_taken ≡ false) × (port_taken.interrupted ≡ false))
init_server-crash_iff_example = init_server-crash_iff log_map one_digit zero_result port_taken

-- A client is accepted on descriptor 6 and leaves again.
abbrev waits : List Wait
waits = ready (event 3 disconnected ∷ []) ∷ ready (event 6 disconnected ∷ []) ∷ []

abbrev after_waits : Server log_map
after_waits = record {
  socket = 3;
  clients = (6 ∷ [], none) ∷ (6 ∷ [], some (record phone { socket = 6 })) ∷ [];
  sent = [];
  closed = 6 ∷ [];
  watched = 3 ∷ 6 ∷ [];
  threads_done = false;
}

waited : run_server log_map one_digit zero_result 2 good_startup waits ≡ running after_waits
unfolding run_server and_then init_server receive_packets receive_one handle_connection server_init
    accept_client parse_packet close_socket delete_client_from_hashmap put_client_in_hashmap
waited = refl
