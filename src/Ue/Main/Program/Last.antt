-- ===== src/Ue/Main/Program/Last.antt =====
-- What a client's program that has ended has sent last.
use lte.Base.{
  ℕ, ltb, ◌≡◌, ◌≢◌, refl, arith, Bool, true, false, not, if◌then◌else◌, Option, none, some,
}
use lte.Ue.Sender.{Sender}
use lte.Ue.Handle.{send_ue_off_signal}
use lte.Ue.Main.{Client, goes_on, run, finish}
use lte.Ue.Main.Shutdown.{message_type_of, run-type}
use lte.Ue.Main.Connection.{Connection, established, connect_client}
use lte.Ue.Main.Program.{Kernel, Exit, ended, join_and_finish, run_connected, run_client}
use lte.Ue.Main.Program.Ends.{connect_client-IsFresh}

-- The sender of a program that has ended is what `send_ue_off_signal` leaves.
module _ (k : Kernel) where
  abbrev IsLast : Exit → Type 0
  IsLast (ended c s) = s ≡ (send_ue_off_signal k.ue_off_written c.device.sender).0
  IsLast _ = Unit

  unless-IsLast :
      (done : Bool) (early late : Exit)
      → IsLast early
      → IsLast late
      → IsLast (if done then early else late)
  unless-IsLast true early late e l = e
  unless-IsLast false early late e l = l

  finish-last :
      (c : Client)
      → message_type_of c ≢ 10
      → finish k.ue_off_written c ≡ (send_ue_off_signal k.ue_off_written c.device.sender).0
  unfolding finish
  finish-last c h = ground arith

  join-IsLast :
      (o : Option Client)
      → ((c : Client) → o ≡ some c → message_type_of c ≢ 10)
      → IsLast (join_and_finish k o)
  unfolding join_and_finish
  join-IsLast none h = tt
  join-IsLast (some c) h =
      unless-IsLast (goes_on c) _ _ tt
        (unless-IsLast (not k.thread_joined) _ _ tt (finish-last c (h c refl)))

  connected-IsLast : (o : Connection) → connect_client k.start ≡ o → IsLast (run_connected k o)
  unfolding run_connected
  connected-IsLast (established c) up = unless-IsLast (not k.thread_created) _ _ tt (
      join-IsLast (run k.turns c) (λ d e.
        run-type k.turns c (let fresh = (connect_client-IsFresh k.start c up).type in omega arith)
          e))
  connected-IsLast _ up = tt

  run_client-IsLast : (argc : ℕ) → IsLast (run_client argc k)
  unfolding run_client
  run_client-IsLast argc = unless-IsLast (ltb argc 2) _ _ tt (
      unless-IsLast (not k.first_mutex) _ _ tt
        (unless-IsLast (not k.second_mutex) _ _ tt (connected-IsLast _ refl)))

  -- A program that has ended has called `send_ue_off_signal` last.
  pub run_client-last :
      (argc : ℕ) {c : Client} {s : Sender}
      → run_client argc k ≡ ended c s
      → s ≡ (send_ue_off_signal k.ue_off_written c.device.sender).0
  run_client-last argc e = rw e at (run_client-IsLast argc)
