-- ===== src/Ue/Main/Saving.antt =====
-- What the client's rounds do to its files, against a specification that knows only of the data
-- messages: opening, writing a block and closing, in the order of their arrival.
use lte.Base.{
  ℕ, ◌≡◌, ◌≢◌, refl, ap, ◌∙◌, Bool, true, arith, Option, none, some, Option-cases, inl, inr, List,
  [], ◌∷◌, ◌++◌, sym,
}
use lte.Message.{
  SMessage, EMessageType, decode_type, type_code, data_start, data_block, data_end, ping,
  measurement_control_request, get_buffer,
}
use lte.Message.Codes.{decode_type_sound}
use lte.Ue.Battery.{Device, update_battery, check_battery_status}
use lte.Ue.Handle.{download_data}
use lte.Ue.Main.{
  Client, Round, Turn, main_turn, battery_turn, interrupt, receive, handle_ping, handle_data,
  handle_data_end, handle_measurement, dispatch, settle, settle_result, main_round, goes_on,
  take_turn, run_result, run,
}
use lte.Ue.Main.Shutdown.{
  message_type_of, NoInterrupt, IsInterrupt, main_round-keeps, take_turn-keeps,
}

-- What the eNodeB asks of the client's disk; an `opens` holds what `fopen` gives.
pub data FileEvent : Type 0 where
  opens : Option (List ℕ) → FileEvent
  block : List ℕ → FileEvent
  ends : FileEvent

-- The open file, if there is one, and the files that were closed.
pub record Disk : Type 0 where
  pub open_file : Option (List ℕ)
  pub saved : List (List ℕ)

-- A block or an end with no open file has no meaning.
abbrev pub on_open : FileEvent → Option (List ℕ) → List (List ℕ) → Option Disk
on_open (opens o) file saved = some (record { open_file = o; saved = saved })
on_open (block b) none saved = none
on_open (block b) (some file) saved = some (record { open_file = some (file ++ b); saved = saved })
on_open ends none saved = none
on_open ends (some file) saved = some (record { open_file = none; saved = saved ++ file ∷ [] })

abbrev pub and_save : (Disk → Option Disk) → Option Disk → Option Disk
and_save next none = none
and_save next (some d) = next d

abbrev pub save : List FileEvent → Disk → Option Disk
save [] d = some d
save (e ∷ es) d = and_save (save es) (on_open e d.open_file d.saved)

abbrev pub disk_of : Client → Disk
disk_of c = record { open_file = c.file_to_recv; saved = c.saved }

abbrev pub disk_result : Option Client → Option Disk
disk_result none = none
disk_result (some c) = some (disk_of c)

-- The event that a message of this type is.
abbrev pub event_of : Option EMessageType → SMessage → Option (List ℕ) → List FileEvent
event_of (some data_start) m opened = opens opened ∷ []
event_of (some data_block) m opened = block (get_buffer m) ∷ []
event_of (some data_end) m opened = ends ∷ []
event_of _ m opened = []

abbrev pub incoming_events : Option SMessage → Option (List ℕ) → List FileEvent
incoming_events none opened = []
incoming_events (some m) opened = event_of (decode_type m.message_type) m opened

abbrev pub turn_events : Turn → List FileEvent
turn_events (main_turn r) = incoming_events r.incoming r.opened
turn_events (battery_turn written now later) = []
turn_events interrupt = []

-- The data messages that the rounds of `main` receive, in order.
abbrev pub events : List Turn → List FileEvent
events [] = []
events (t ∷ ts) = turn_events t ++ events ts

-- The type of `message` is not that of a data message, so that a round without a new message
-- leaves the disk alone.
abbrev pub IsQuiet : Client → Type 0
IsQuiet c = (message_type_of c ≢ 13) × (message_type_of c ≢ 14) × (message_type_of c ≢ 15)

quiet_event :
    (t : EMessageType) (m : SMessage) (opened : Option (List ℕ))
    → type_code t ≢ 13
    → type_code t ≢ 14
    → type_code t ≢ 15
    → event_of (some t) m opened ≡ []
quiet_event data_start m opened a b c = absurd (a refl)
quiet_event data_block m opened a b c = absurd (b refl)
quiet_event data_end m opened a b c = absurd (c refl)
quiet_event _ m opened a b c = refl

no_event :
    (c : Client) (m : SMessage) (opened : Option (List ℕ))
    → IsQuiet c
    → event_of (decode_type (message_type_of c)) m opened ≡ []
no_event c m opened q = elim (Option-cases (decode_type (message_type_of c))) [
  | inl other ↦ rw other
  | inr (t, typed) ↦
      let code = decode_type_sound (message_type_of c) t typed in
      rw typed (
        quiet_event t m opened (λ e. q.0 (sym code ∙ e)) (λ e. q.1 (sym code ∙ e))
          (λ e. q.2 (sym code ∙ e)))
]

handle_data-disk :
    (o : Option (List ℕ)) (r : Round) (c : Client)
    → disk_result (settle_result r (handle_data o c))
      ≡ on_open (block (get_buffer c.device.sender.message)) o c.saved
unfolding handle_data settle settle_result download_data
handle_data-disk none r c = refl
handle_data-disk (some file) r c = refl

handle_data_end-disk :
    (o : Option (List ℕ)) (r : Round) (c : Client)
    → disk_result (settle_result r (handle_data_end o c)) ≡ on_open ends o c.saved
unfolding handle_data_end settle settle_result
handle_data_end-disk none r c = refl
handle_data_end-disk (some file) r c = refl

and_save-some : (o : Option Disk) → and_save (λ d. some d) o ≡ o
and_save-some none = refl
and_save-some (some d) = refl

dispatch-disk :
    (t : Option EMessageType) (r : Round) (c : Client)
    → disk_result (settle_result r (dispatch t r c))
      ≡ save (event_of t c.device.sender.message r.opened) (disk_of c)
unfolding dispatch settle settle_result handle_ping handle_measurement
dispatch-disk (some ping) r c = ground arith
dispatch-disk (some data_start) r c = refl
dispatch-disk (some data_block) r c = handle_data-disk c.file_to_recv r c ∙ sym (and_save-some _)
dispatch-disk (some data_end) r c = handle_data_end-disk c.file_to_recv r c ∙ sym (and_save-some _)
dispatch-disk (some measurement_control_request) r c = ground arith
dispatch-disk _ r c = refl

receive-disk :
    (o : Option SMessage) (r : Round) (c : Client)
    → IsQuiet c
    → disk_result
        (settle_result r (dispatch (decode_type (message_type_of (receive o c))) r (receive o c)))
      ≡ save (incoming_events o r.opened) (disk_of c)
unfolding receive
receive-disk none r c q =
    dispatch-disk (decode_type (message_type_of c)) r c
    ∙ ap (λ es. save es (disk_of c)) (no_event c c.device.sender.message r.opened q)
receive-disk (some m) r c q = dispatch-disk (decode_type m.message_type) r (receive (some m) c)

pub take_turn-disk :
    (t : Turn) (c : Client)
    → ¬ (IsInterrupt t)
    → goes_on c ≡ true
    → IsQuiet c
    → disk_result (take_turn t c) ≡ save (turn_events t) (disk_of c)
unfolding take_turn main_round
take_turn-disk (main_turn r) c h on q = rw on (receive-disk r.incoming r c q)
take_turn-disk (battery_turn written now later) c h on q = rw on
take_turn-disk interrupt c h on q = refl

update_battery-quiet :
    (written : Bool) (now later n : ℕ) (d : Device)
    → n ≢ 5
    → n ≢ 6
    → d.sender.message.message_type ≢ n
    → (update_battery written now later d).0.sender.message.message_type ≢ n
unfolding update_battery check_battery_status
update_battery-quiet written now later n d a b h = ground arith

pub take_turn-IsQuiet :
    (t : Turn) (c : Client) {c' : Client} → IsQuiet c → take_turn t c ≡ some c' → IsQuiet c'
unfolding take_turn
take_turn-IsQuiet (main_turn r) c {c' = d} q e = ground (arith, main_round-keeps r c {c' = d})
take_turn-IsQuiet (battery_turn written now later) c q e = ground (
  arith,
  update_battery-quiet written now later 13 c.device,
  update_battery-quiet written now later 14 c.device,
  update_battery-quiet written now later 15 c.device,
)
take_turn-IsQuiet interrupt c q e = ground arith

pub save-append :
    (xs ys : List FileEvent) (d : Disk) → save (xs ++ ys) d ≡ and_save (save ys) (save xs d)
save-append [] ys d = refl
save-append (e ∷ xs) ys d =
    and_save-append (λ d'. save-append xs ys d') (on_open e d.open_file d.saved)
  where
    and_save-append :
        ((d' : Disk) → save (xs ++ ys) d' ≡ and_save (save ys) (save xs d'))
        → (o : Option Disk)
        → and_save (save (xs ++ ys)) o ≡ and_save (save ys) (and_save (save xs) o)
    and_save-append ih none = refl
    and_save-append ih (some d') = ih d'

-- The client's loops do to its files what `save` says of the data messages that arrive, and meet
-- undefined behaviour exactly where `save` gives no meaning to their order: however rounds of the
-- battery thread, rounds without a message and other messages fall between them, from a client in
-- its loop and until a SIGINT.
pub run-refines_save :
    (ts : List Turn) (c : Client)
    → NoInterrupt ts
    → goes_on c ≡ true
    → IsQuiet c
    → disk_result (run ts c) ≡ save (events ts) (disk_of c)
unfolding run run_result
run-refines_save [] c h on q = refl
run-refines_save (t ∷ ts) c h on q =
    rw (save-append (turn_events t) (events ts) (disk_of c), ← take_turn-disk t c h.0 on q)
      (elim (Option-cases (take_turn t c)) [
        | inl fault ↦ rw fault
        | inr (d, step) ↦
            let (same, kept) = take_turn-keeps t c h.0 step in
            rw step (
              run-refines_save ts d h.1 (unfold goes_on in ground arith)
                (take_turn-IsQuiet t c q step))
      ])
