-- ===== src/Ue/Main/Program.antt =====
-- clientLTE/main.c: the whole of `main`, from its arguments to its exit status.
--
-- Not modelled: a SIGINT that arrives before `sigaction`, which ends the process at once.
pub mod Ends
pub mod Reaches
pub mod Last
pub mod Types
use lte.Base.{ℕ, ltb, Bool, ◌&&◌, not, if◌then◌else◌, Option, none, some, List}
use lte.Ue.Sender.{Sender}
use lte.Ue.Main.{Client, Turn, goes_on, run, finish}
use lte.Ue.Main.Connection.{Start, Connection, established, connect_client}

-- What the kernel decides in a run of the program: the results of `pthread_mutex_init`,
-- `pthread_create` and `pthread_join`, and of the `write` of ue_off.
pub record Kernel : Type 0 where
  pub first_mutex : Bool
  pub second_mutex : Bool
  pub start : Start
  pub thread_created : Bool
  pub turns : List Turn
  pub thread_joined : Bool
  pub ue_off_written : Bool

-- `left` is an exit status before the loops; `fault` is undefined behaviour in a turn; `looping`
-- is a client whose loops go on after the turns; `not_joined` exits with status 1, and `ended`
-- with status 0.
pub data Exit : Type 0 where
  left : ℕ → Exit
  fault : Exit
  looping not_joined : Client → Exit
  ended : Client → Sender → Exit

-- From the end of the loops, which `pthread_join` waits for, to the end of `main`.
unfoldable pub join_and_finish : Kernel → Option Client → Exit
join_and_finish k none = fault
join_and_finish k (some c) =
    if goes_on c
    then looping c
    else if not k.thread_joined
    then not_joined c
    else ended c (finish k.ue_off_written c)

unfoldable pub run_connected : Kernel → Connection → Exit
run_connected k (established c) =
    if not k.thread_created then left 1 else join_and_finish k (run k.turns c)
run_connected k _ = left 0

unfoldable pub run_client : ℕ → Kernel → Exit
run_client argc k =
    if ltb argc 2
    then left 0
    else if not k.first_mutex
    then left 1
    else if not k.second_mutex
    then left 1
    else run_connected k (connect_client k.start)
