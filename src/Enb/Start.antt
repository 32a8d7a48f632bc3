-- ===== src/Enb/Start.antt =====
-- `init_server` and `receive_packets` of server.c: the start of the eNodeB and its endless loop.
--
-- The results of `socket`, `bind`, `listen`, `epoll_create1` and `epoll_ctl` are a Startup; the
-- creation of the threads, whose rounds are in Enb.Ping and Enb.Transfer, is left out, and so is
-- `setsockopt`, whose result the source ignores.
pub mod Reach
use lte.Base.{ℕ, ℤ, Bool, true, false, not, ltb, if◌then◌else◌, Option, none, some, List, [], ◌∷◌}
use lte.Enb.ClientObject.{ClientMap, Format, Entry}
use lte.Enb.Server.{Server, Outcome, running, exited, crashed, clean, error}
use lte.Enb.Packet.{Ready, and_then, handle_connection}

pub record Startup : Type 0 where
  pub descriptor : Option ℕ  -- of `socket`
  pub bound : Bool
  pub listening : Bool
  pub polling : Bool
  pub registered : Bool
  pub interrupted : Bool  -- `errno` is `EINTR` when a call fails

-- What `epoll_wait` gives: the events that are ready, an error, or a SIGINT that arrives while it
-- waits.
pub data Wait : Type 0 where
  ready : List Ready → Wait
  signalled : Wait
  wait_error : Bool → Wait

module _ (h : ClientMap) (f : Format) (garbage : Entry → ℤ) where
  -- The global before `server_t__init`; its map is null, and only `exit` sees this value.
  abbrev zeroed : Server h
  zeroed = record {
    socket = 0;
    clients = h.init;
    sent = [];
    closed = [];
    watched = [];
    threads_done = false;
  }

  cleaned : Option (Server h) → Outcome h
  cleaned none = crashed
  cleaned (some s) = exited s

  -- `error` before `server_t__init`: `clean` meets the null map.
  unfoldable pub early_error : Bool → Outcome h
  unfolding cleaned
  early_error interrupted = if interrupted then exited zeroed else cleaned (clean h f garbage none)

  -- `server_t__init`
  unfoldable pub server_init : ℕ → Server h
  server_init socket = record {
    socket = socket;
    clients = h.init;
    sent = [];
    closed = [];
    watched = socket ∷ [];
    threads_done = false;
  }

  unfoldable pub bind_and_listen : Startup → Option ℕ → Outcome h
  bind_and_listen k none = early_error k.interrupted
  bind_and_listen k (some socket) =
      if not k.bound
      then early_error k.interrupted
      else if not k.listening
      then early_error k.interrupted
      else if not k.polling
      then early_error k.interrupted
      else if not k.registered
      then early_error k.interrupted
      else running (server_init socket)

  unfoldable pub init_server : Startup → Outcome h
  unfolding bind_and_listen
  init_server k = bind_and_listen k k.descriptor

  -- SIGINT: its handler is `clean`, after which `epoll_wait` fails with `EINTR`.
  after_clean : Option (Server h) → Outcome h
  after_clean none = crashed
  after_clean (some s) = error h f true garbage s

  unfoldable pub receive_one : Wait → Server h → Outcome h
  unfolding after_clean
  receive_one signalled s = after_clean (clean h f garbage (some s))
  receive_one (wait_error interrupted) s = error h f interrupted garbage s
  receive_one (ready rs) s = handle_connection h f garbage rs s

  -- The first rounds of the endless loop.
  unfoldable pub receive_packets : List Wait → Server h → Outcome h
  receive_packets [] s = running s
  receive_packets (w ∷ ws) s = and_then h f garbage (receive_packets ws) (receive_one w s)

  -- It ends the process with no `clean`.
  unfoldable pub remind_about_port : Outcome h
  remind_about_port = exited zeroed

  -- `main` up to the same point.
  unfoldable pub run_server : ℕ → Startup → List Wait → Outcome h
  unfolding remind_about_port
  run_server argc k ws =
      let served = and_then h f garbage (receive_packets ws) (init_server k) in
      if ltb argc 2 then remind_about_port else served
