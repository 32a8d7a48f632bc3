-- ===== src/Enb/Directory.antt =====
-- What the eNodeB promises of its event loop: a directory of clients by descriptor.
--
-- The specification has no hash map, no keys and no pointers. A message changes the entry of its
-- own descriptor and no other, as `fate` says for each type of message.
pub mod Refine
use lte.Base.{ℕ, ◌==◌, pos, Bool, if◌then◌else◌, Option, none, some, List, [], ◌∷◌, ◌++◌, map}
use lte.Message.{
  SMessage, EMessageType, decode_type, random_access_request, rrc_request, ue_battery_low,
  ue_battery_high, pong, ue_off, get_ra_rnti,
}
use lte.Enb.ClientObject.{ClientT, ok, low}
use lte.Enb.Server.{Accepted}
use lte.Enb.Packet.{
  Packet, read_error, disconnected, arrived, Ready, extract_preamble_index, response_message,
  setup_message,
}

pub record Directory : Type 0 where
  pub listening : ℕ
  pub clients : ℕ → Option ClientT
  pub replies : List (ℕ × SMessage)

-- What becomes of the entry that a message is about, and what its sender is told.
pub data Fate : Type 0 where
  keeps : Option ClientT → List SMessage → Fate
  faults : Fate

-- A message that only a known client may send.
abbrev pub known : Option ClientT → (ClientT → Fate) → Fate
known none change = faults
known (some c) change = change c

-- The entry after a random access request; who is unknown stays unknown, and is answered too.
abbrev pub admit : ℕ → ℕ → Option ClientT → Option ClientT
admit ra_rnti now none = none
admit ra_rnti now (some c) = some (record c {
  preamble_index = extract_preamble_index ra_rnti;
  last_activity = pos now;
  first_connection_timestamp = pos now;
  rnti = ra_rnti;
  battery_state = ok;
})

abbrev pub fate : Option EMessageType → SMessage → ℕ → Option ClientT → Fate
fate (some random_access_request) m now o =
    keeps (admit (get_ra_rnti m) now o)
      (response_message (extract_preamble_index (get_ra_rnti m)) now ∷ [])
fate (some rrc_request) m now o = known o (λ c. keeps (some c) (setup_message c.rnti ∷ []))
fate (some ue_battery_low) m now o =
    known o (λ c. keeps (some (record c { battery_state = low })) [])
fate (some ue_battery_high) m now o =
    known o (λ c. keeps (some (record c { battery_state = ok })) [])
fate (some pong) m now o = known o (λ c. keeps (some (record c { last_activity = pos now })) [])
fate (some ue_off) m now o = keeps none []
fate _ m now o = keeps o []

pub data Verdict : Type 0 where
  serving : Directory → Verdict
  stopped faulty : Verdict

abbrev pub assign : (ℕ → Option ClientT) → ℕ → Option ClientT → ℕ → Option ClientT
assign clients d o j = if d == j then o else clients j

abbrev pub settle_fate : ℕ → Fate → Directory → Verdict
settle_fate d (keeps o ms) r =
    serving
      (record r { clients = assign r.clients d o; replies = r.replies ++ map (λ m. (d, m)) ms })
settle_fate d faults r = faulty

abbrev pub serve_packet : ℕ → Packet → ℕ → Directory → Verdict
serve_packet d (read_error interrupted) now r = stopped
serve_packet d disconnected now r = settle_fate d (keeps none []) r
serve_packet d (arrived m) now r =
    settle_fate d (fate (decode_type m.message_type) m now (r.clients d)) r

abbrev pub admit_descriptor : Accepted → Option ℕ → Directory → Verdict
admit_descriptor a none r = stopped
admit_descriptor a (some d) r =
    if a.registered
    then settle_fate d (keeps (some (record a.memory { socket = d })) []) r
    else stopped

abbrev pub serve_event : Ready → Directory → Verdict
serve_event e r =
    if e.descriptor == r.listening
    then admit_descriptor e.accepted e.accepted.descriptor r
    else serve_packet e.descriptor e.packet e.now r

abbrev pub and_serve : (Directory → Verdict) → Verdict → Verdict
and_serve next (serving r) = next r
and_serve next stopped = stopped
and_serve next faulty = faulty

abbrev pub serve : List Ready → Directory → Verdict
serve [] r = serving r
serve (e ∷ es) r = and_serve (serve es) (serve_event e r)
