-- ===== src/Message.antt =====
-- message.h: the message types, the enumerations and the message that both ends exchange.
--
-- `s_message` is its type and the forty bytes of the union `u_message_value`, so that a write to
-- one member shows in the others, as in C. Offsets, widths and the little-endian order are those
-- of the x86-64 System V ABI. Fixed-width members are bit patterns, numbers below 2 ^ width.
pub mod Bytes
pub mod Codes
pub mod Types
use lte.Base.{
  ℕ, zero, suc, ◌≡◌, refl, Option, none, some, List, [], ◌∷◌, replicate, take, drop, ◌++◌, Bool,
}
use lte.Message.Bytes.{load, store}

-- The `e_message_type` enumeration.
pub data EMessageType : Type 0 where
  random_access_request random_access_response rrc_request rrc_setup rrc_complete : EMessageType
  ue_battery_low ue_battery_high ping pong ue_off enb_off : EMessageType
  measurement_control_request measurement_report data_start data_block data_end : EMessageType

-- The value that C gives each enumerator.
abbrev pub type_code : EMessageType → ℕ
type_code random_access_request = 0
type_code random_access_response = 1
type_code rrc_request = 2
type_code rrc_setup = 3
type_code rrc_complete = 4
type_code ue_battery_low = 5
type_code ue_battery_high = 6
type_code ping = 7
type_code pong = 8
type_code ue_off = 9
type_code enb_off = 10
type_code measurement_control_request = 11
type_code measurement_report = 12
type_code data_start = 13
type_code data_block = 14
type_code data_end = 15

-- The enumerators by their value: what a `switch` on a received type can match.
abbrev pub all_types : List EMessageType
all_types =
    random_access_request ∷ random_access_response ∷ rrc_request ∷ rrc_setup ∷ rrc_complete
    ∷ ue_battery_low ∷ ue_battery_high ∷ ping ∷ pong ∷ ue_off ∷ enb_off
    ∷ measurement_control_request ∷ measurement_report ∷ data_start ∷ data_block ∷ data_end ∷ []

abbrev pub nth_type : List EMessageType → ℕ → Option EMessageType
nth_type [] n = none
nth_type (t ∷ ts) zero = some t
nth_type (t ∷ ts) (suc n) = nth_type ts n

abbrev pub decode_type : ℕ → Option EMessageType
decode_type n = nth_type all_types n

pub decode_type-type_code : (t : EMessageType) → decode_type (type_code t) ≡ some t
decode_type-type_code random_access_request = refl
decode_type-type_code _ = refl

-- The `s_event` enumeration; `def` is no event.
pub data SEvent : Type 0 where
  a1 a2 a3 a4 def : SEvent

abbrev pub event_code : SEvent → ℕ
event_code a1 = 0
event_code a2 = 1
event_code a3 = 2
event_code a4 = 3
event_code def = 4

-- The `e_ec` enumeration.
pub data EEc : Type 0 where
  emergency high_priority_access mt_access mo_signaling mo_data : EEc

abbrev pub cause_code : EEc → ℕ
cause_code emergency = 0
cause_code high_priority_access = 1
cause_code mt_access = 2
cause_code mo_signaling = 3
cause_code mo_data = 4

abbrev pub buffer_size : ℕ
buffer_size = 16

abbrev pub value_size : ℕ
value_size = 40

pub record SMessage : Type 0 where
  pub message_type : ℕ  -- 32 bits; -1 is 2 ^ 32 - 1
  pub message_value : List ℕ  -- the bytes of the union

-- A zeroed message, as `memset` leaves it.
abbrev pub zero_message : SMessage
zero_message = record { message_type = 0; message_value = replicate value_size 0 }

-- The members: their width and offset in bytes.
abbrev pub get_ra_rnti : SMessage → ℕ
get_ra_rnti m = load 2 0 m.message_value

abbrev pub set_ra_rnti : ℕ → SMessage → SMessage
set_ra_rnti v m = record m { message_value = store 2 0 v m.message_value }

abbrev pub get_rapid : SMessage → ℕ
get_rapid m = load 1 0 m.message_value

-- `struct prach_response`: `rapid`, and the time stamp at offset 8.
abbrev pub set_response : ℕ → ℕ → SMessage → SMessage
set_response rapid timestamp m = record m {
  message_value = store 8 8 timestamp (store 1 0 rapid m.message_value);
}

abbrev pub get_c_rnti : SMessage → ℕ
get_c_rnti m = load 1 0 m.message_value

abbrev pub set_c_rnti : ℕ → SMessage → SMessage
set_c_rnti v m = record m { message_value = store 1 0 v m.message_value }

-- `struct stmsi` inside `struct rrc_req`.
pub record SStmsi : Type 0 where
  pub mme_code : ℕ  -- u_int8_t
  pub mtmsi : ℕ  -- u_int32_t

abbrev pub get_ue_identity : SMessage → SStmsi
get_ue_identity m = record { mme_code = load 1 4 m.message_value; mtmsi = load 4 8 m.message_value }

abbrev pub set_ue_identity : SStmsi → SMessage → SMessage
set_ue_identity s m = record m {
  message_value = store 4 8 s.mtmsi (store 1 4 s.mme_code m.message_value);
}

abbrev pub set_cause : EEc → SMessage → SMessage
set_cause c m = record m { message_value = store 4 12 (cause_code c) m.message_value }

-- `struct rrc_config`; `RNTI` is the 32-bit pattern of an `int`.
pub record RrcConfig : Type 0 where
  pub nulrb : ℕ
  pub n_subframe : ℕ
  pub n_cell_id : ℕ
  pub rnti : ℕ
  pub cyclic_prefix : ℕ
  pub hopping : ℕ
  pub seg_group : ℕ
  pub cyclic_shift : ℕ
  pub short_end : ℕ

abbrev pub set_rrc_config : RrcConfig → SMessage → SMessage
set_rrc_config c m =
    let low =
      store 4 12 c.rnti
        (store 4 8 c.n_cell_id (store 4 4 c.n_subframe (store 4 0 c.nulrb m.message_value))) in
    let mid = store 4 24 c.seg_group (store 4 20 c.hopping (store 4 16 c.cyclic_prefix low)) in
    record m { message_value = store 4 32 c.short_end (store 4 28 c.cyclic_shift mid) }

abbrev pub get_config_rnti : SMessage → ℕ
get_config_rnti m = load 4 12 m.message_value

-- `struct rrc_setup_complete`.
abbrev pub set_complete : ℕ → ℕ → SMessage → SMessage
set_complete mcc mnc m = record m { message_value = store 2 2 mnc (store 2 0 mcc m.message_value) }

abbrev pub set_events : SEvent → SMessage → SMessage
set_events e m = record m { message_value = store 4 0 (event_code e) m.message_value }

abbrev pub get_events : SMessage → ℕ
get_events m = load 4 0 m.message_value

-- The sixteen bytes of `buffer`, and a `memset` or `memcpy` of all of them.
abbrev pub get_buffer : SMessage → List ℕ
get_buffer m = take buffer_size m.message_value

abbrev pub set_buffer : List ℕ → SMessage → SMessage
set_buffer b m = record m { message_value = b ++ drop buffer_size m.message_value }
