-- ===== src/Tests/Threads.antt =====
-- Tests of the eNodeB's directory and of its threads.
use lte.Base.{
  ◌++◌, take, arith, ◌==◌, pos, Bool, ◌≡◌, ◌≢◌, ℕ, refl, true, false, none, some, List, [], ◌∷◌,
  replicate,
}
use lte.Enb.ClientObject.{Entry, put_client_in_hashmap, get_client_by_socket}
use lte.Enb.Server.{running, crashed, Accepted, Server, typed_message, accept_client}
use lte.Enb.Packet.{arrived, handle_connection}
use lte.Enb.Directory.{serve}
use lte.Enb.Directory.Refine.{view, view_outcome, handle_connection-refines_serve}
use lte.Enb.Start.{init_server, server_init}
use lte.Enb.Transfer.Clients.{Delivery, exit_success, exit_failure, out_of_fuel, transfer_data}
use lte.Enb.Transfer.Clients.Sends.{
  all_messages, lost_block, transfer_data-sends, transfer_data-stops, transfer_data-ends,
}
use lte.Enb.Threads.{live, faulted, Step, Reach, start, later, accept, read}
use lte.Enb.Ping.{drop_clients}
use lte.Message.{decode_type}
use lte.Enb.Packet.{dispatch}
use lte.Enb.Threads.Orderly.{IsOrderly}
use lte.Enb.Threads.Fresh.{fresh, with_fresh, fresh_client_dropped}
use lte.Enb.Packet.Frame.{found}
use lte.Enb.Threads.Safety.{Reach-IsOrderly, drop_race}
use lte.Tests.Maps.{log_map, one_digit}
use lte.Tests.Enb.{phone, one_client, zero_result, event}
use lte.Tests.Start.{good_startup}

handle_connection-refines_serve_example :
    view_outcome log_map one_digit (
      handle_connection log_map one_digit zero_result
        (event 5 (arrived (typed_message 2)) ∷ [])
        one_client)
    ≡ serve (event 5 (arrived (typed_message 2)) ∷ []) (view log_map one_digit one_client)
handle_connection-refines_serve_example =
    handle_connection-refines_serve log_map one_digit zero_result
      (event 5 (arrived (typed_message 2)) ∷ []) one_client

abbrev sample : List ℕ
sample = replicate 17 3

abbrev name : List ℕ
name = replicate 16 1

abbrev good_delivery : Entry → Delivery
good_delivery e = record {
  opened = some sample;
  start_ok = true;
  end_ok = true;
  delivered = λ n. true;
  rest = [];
}

abbrev no_file : Entry → Delivery
no_file e = record (good_delivery e) { opened = none }

transfer_data-sends_example :
    transfer_data log_map good_delivery name one_client
    ≡ exit_success (record one_client {
      sent = all_messages log_map good_delivery name sample (log_map.entries one_client.clients);
    })
transfer_data-sends_example =
    transfer_data-sends log_map good_delivery name sample one_client refl
      (record { opens = refl; starts = refl; ends = refl; arrives = λ n. refl }, tt)

-- The second block of a file of twenty bytes is lost.
abbrev long_sample : List ℕ
long_sample = replicate 20 1

abbrev lossy : Entry → Delivery
lossy e = record {
  opened = some long_sample;
  start_ok = true;
  end_ok = true;
  delivered = λ n. n == 0;
  rest = [];
}

transfer_data-stops_example :
    transfer_data log_map lossy name one_client
    ≡ exit_failure (record one_client {
      sent =
          (5, record { message_type = 13; message_value = take 16 name ++ [] })
          ∷ (5, record { message_type = 14; message_value = replicate 16 1 ++ [] })
          ∷ [];
    })
transfer_data-stops_example =
    transfer_data-stops log_map lossy name long_sample one_client [] [] (5 ∷ [], phone) _ refl refl
      tt
      (lost_block 1 refl refl (omega arith)
        (λ k low. let first : k ≡ 0 = omega arith in rw first refl) refl)

transfer_data-ends_example : transfer_data log_map no_file name one_client ≢ out_of_fuel
transfer_data-ends_example = transfer_data-ends log_map no_file name sample one_client

abbrev pub started : Server log_map
started = record {
  socket = 3;
  clients = [];
  sent = [];
  closed = [];
  watched = 3 ∷ [];
  threads_done = false;
}

-- The client is accepted on descriptor 5, and its pong is read.
abbrev pub joined : Server log_map
joined = record started { clients = (5 ∷ [], some phone) ∷ []; watched = 3 ∷ 5 ∷ [] }

joined-Reach :
    (drops : Bool)
    → Reach log_map one_digit zero_result drops (live joined (some (5, typed_message 8)))
unfolding init_server server_init accept_client get_client_by_socket put_client_in_hashmap
joined-Reach drops =
    later
      (later (start good_startup {x = started} refl) (
        accept started false (record { descriptor = some 5; memory = phone; registered = true })
          refl refl))
      (read joined 5 (typed_message 8) phone refl refl refl)

Reach-IsOrderly_example :
    IsOrderly log_map one_digit false (live joined (some (5, typed_message 8)))
Reach-IsOrderly_example = Reach-IsOrderly log_map one_digit zero_result false (joined-Reach false)

drop_race_example :
    let y = drop_clients log_map one_digit (λ e. 5000) ((5 ∷ [], phone) ∷ []) joined in
    Step log_map one_digit zero_result true
      (live joined (some (5, typed_message 8)))
      (live y (some (5, typed_message 8)))
    × (found log_map one_digit y 5 ≡ none)
    × (dispatch log_map one_digit (decode_type 8) 5 (typed_message 8) 9 y ≡ crashed)
    × Step log_map one_digit zero_result true (live y (some (5, typed_message 8))) faulted
unfolding get_client_by_socket
drop_race_example =
    drop_race log_map one_digit zero_result joined 5 9 (typed_message 8) phone (λ e. 5000)
      (joined-Reach true) refl refl refl

-- Memory of zeros is what a first `malloc` often gives.
abbrev zeroed_client : Accepted
zeroed_client = record {
  descriptor = some 5;
  memory = record phone { first_connection_timestamp = pos 0; last_activity = pos 0; socket = 0 };
  registered = true;
}

fresh_client_dropped_example :
    let y = with_fresh log_map one_digit zero_result zeroed_client 5 started in
    let t = drop_clients log_map one_digit (λ e. 5000) ((5 ∷ [], fresh zeroed_client 5) ∷ []) y in
    (accept_client log_map one_digit false zero_result zeroed_client started ≡ running y)
    × Step log_map one_digit zero_result true (live started none) (live y none)
    × (found log_map one_digit y 5 ≡ some (fresh zeroed_client 5))
    × Step log_map one_digit zero_result true (live y none) (live t none)
    × (found log_map one_digit t 5 ≡ none)
    × (t.closed ≡ 5 ∷ [])
    × (t.sent ≡ [])
fresh_client_dropped_example =
    fresh_client_dropped log_map one_digit zero_result started false zeroed_client 5 (λ e. 5000)
      refl refl refl
