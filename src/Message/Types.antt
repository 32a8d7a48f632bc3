-- ===== src/Message/Types.antt =====
-- The two kinds of types of messages, and lists of messages of one kind.
use lte.Base.{ℕ, ◌≡◌, Bool, true, false, not, Option, none, some, List, [], ◌∷◌, ◌++◌}
use lte.Message.{
  SMessage, EMessageType, decode_type, random_access_response, rrc_setup, ping, enb_off,
  measurement_control_request, data_start, data_block, data_end,
}

-- The types that clients wait for; the others are the clients' own.
abbrev pub is_downlink : Option EMessageType → Bool
is_downlink (some random_access_response) = true
is_downlink (some rrc_setup) = true
is_downlink (some ping) = true
is_downlink (some enb_off) = true
is_downlink (some measurement_control_request) = true
is_downlink (some data_start) = true
is_downlink (some data_block) = true
is_downlink (some data_end) = true
is_downlink _ = false

abbrev pub IsDownlink : ℕ → Type 0
IsDownlink n = is_downlink (decode_type n) ≡ true

-- The types that are for the eNodeB: the others that are declared.
abbrev pub is_uplink : Option EMessageType → Bool
is_uplink none = false
is_uplink (some t) = not (is_downlink (some t))

abbrev pub IsUplink : ℕ → Type 0
IsUplink n = is_uplink (decode_type n) ≡ true

-- Every message has a type of this kind.
abbrev pub TypesAre : (ℕ → Type 0) → List SMessage → Type 0
TypesAre P [] = Unit
TypesAre P (m ∷ ms) = P m.message_type × TypesAre P ms

pub TypesAre-snoc :
    (P : ℕ → Type 0) (ms : List SMessage) (m : SMessage)
    → TypesAre P ms
    → P m.message_type
    → TypesAre P (ms ++ m ∷ [])
TypesAre-snoc P [] m all new = (new, tt)
TypesAre-snoc P (x ∷ ms) m all new = (all.0, TypesAre-snoc P ms m all.1 new)
