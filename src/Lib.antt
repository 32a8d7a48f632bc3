-- ===== src/Lib.antt =====
-- A verification library of a small model of LTE: a client (the user equipment, clientLTE) and a
-- server (the eNodeB, serverLTE) that exchange messages of one fixed layout (message.h) over TCP.
--
-- The client connects, sends a random access preamble, checks the response, asks for an RRC
-- connection and completes it. Then `main` polls for messages, one a round: it answers pings,
-- saves the blocks of files and reports the event of its cells, while a second thread drains and
-- charges the battery and tells the eNodeB when it gets low or high. The eNodeB waits with epoll:
-- it accepts clients and handles one message of a client at a time, while other threads ping the
-- clients, drop the silent ones, ask for measurements and send a file.
--
-- Message is message.h: the types of messages, the bytes of a message's union, and its members as
-- loads and stores at their offsets (Message.Bytes), for x86-64. Message.Types are the types for
-- clients and those for the eNodeB.
--
-- Ue is clientLTE. Ue.Battery is the battery of user_equipment.c and Ue.Cells are its cells, with
-- the static variables of `check_events` as the record EventState. Ue.Access is random_access.c
-- and init_connection.c, Ue.Rrc is rrc.c, and Ue.Handle is handle_messages.c and shutdown.c.
-- Ue.Main is main.c: `main_round` is the body of the loop, `take_turn` a turn of one of the two
-- threads or a SIGINT, and `finish` what follows the loop. Ue.Main.Connection is `main` up to the
-- loop, and Ue.Main.Program the whole of `main`.
-- Ue.Main.Saving is what the loop promises of the files that it receives, and Ue.Main.Race a
-- round of `main` that the battery thread interrupts. Ue.Main.Loops has the two loops as threads
-- that end on their own, each with the `close` in its test.
-- Ue.Sender holds the global `message` with what has been written to the socket.
--
-- Enb is serverLTE. Enb.ClientObject is client_object.c, Enb.Server is server.c and
-- client_handler.c, Enb.Packet is packet_handler.c up to its threads with `handle_connection` of
-- server.c, Enb.Ping are the rounds of its threads, and Enb.Transfer is `broadcast_sample`, with
-- `transfer_data` in Enb.Transfer.Clients.
-- Enb.Start is `init_server` and `receive_packets` of server.c, and `main` of the eNodeB.
-- Enb.Threads is the eNodeB with all its threads, as a step relation. Enb.Directory is what the
-- event loop promises, with no map and no keys, with its refinement in a module Refine.
-- Enb.Shutdown is the end of the eNodeB by SIGINT, as a step relation in which `clean` has two
-- parts around its `pthread_join` and each thread is at a place of its loop; Enb.Shutdown.Path are
-- the steps that handle the signal, and Enb.Downlink the types of what is sent.
-- A Server is `server_t` with the kernel calls made so far; an Outcome says whether the server
-- goes on, has called `exit`, or has gone through a null pointer.
--
-- System puts the two together: random access, the whole connection, and a file on its way.
-- System.Network is the eNodeB and one of its clients with the messages under way between them,
-- among other clients, as a step relation. System.KeepAlive is a ping and its pong, and
-- System.Notices the notices of a battery up to the eNodeB's record, System.Measurement a request
-- and its report, System.PowerOff the end of a client, and System.Shutdown that of the eNodeB.
--
-- Logs is logs/logs.c: the lines on the terminal and in the log file.
--
-- Parameters. lib/hashmap.c is another project's library, so the map of clients is the record
-- ClientMap of its calls with the behaviour that lib/hashmap.h documents; Tests.Maps has a map
-- that meets it. `sprintf` and `atoi` are the record Format. The results of system calls, of
-- `rand` and of `time` are arguments: a Boolean for a write that succeeds, an Option for what
-- `recv`, `fopen` or `accept` give, numbers for the clock.
--
-- Bounds. Bytes and words are natural numbers with their wrap-around written out; signed values
-- that are compared are integers, kept in `int8_t` where the source does. Descriptors are below
-- 10 ^ 7 and files smaller than 2 GB. The loop of `broadcast_sample` runs on fuel, one more than
-- the bytes of the file, of which each round reads sixteen. Iterations over the clients are
-- recursions on the entries of the map. A turn of a thread is
-- atomic in Ue.Main.run, and a step is in Enb.Threads and Enb.Shutdown, where the `read` of a
-- message and its handler are two steps. Such a step is a whole round over the clients, the whole
-- of `transfer_data`, and the first part of `clean`, its broadcast with the assignment of
-- `threads_done`; System.Network sends the messages of the transfer one a step. Each `read` or
-- `recv` delivers a whole message. The unset bytes behind the buffers of the two messages of
-- `broadcast_sample` are one argument, which no receiver reads.
--
-- The endless loop of `receive_packets` is its first rounds, any number of them.
--
-- Not modelled: lib/MurmurHash3.c and lib/hashmap.c; the calls of `add_logf`, whose output nothing
-- reads; a SIGINT of the eNodeB within a step, before `init_server` has returned, or given to
-- another thread than the main one, and of the client before `sigaction`; what the eNodeB does
-- where `pthread_create` fails; `setsockopt`, whose result is ignored; a level of
-- `add_logf` that is none of its four; and the sleeps.
mod Base
pub mod Message
pub mod Ue
pub mod Enb
pub mod Logs
pub mod System
mod Tests
