-- ===== src/Ue/Sender.antt =====
-- The client's end of the socket: the message buffer that a function fills, and the messages
-- that `write` has accepted, oldest first. Whether `write` returns -1 is the kernel's choice.
use lte.Base.{ℕ, ℤ, pos, negsuc, Bool, true, false, if◌then◌else◌, List, [], ◌∷◌, ◌++◌}
use lte.Message.{SMessage}
use lte.Message.Types.{TypesAre, TypesAre-snoc}

pub record Sender : Type 0 where
  pub message : SMessage
  pub wire : List SMessage

-- `if(-1 == write(socketfd, message, sizeof(*message))) return -1; return 0;`
abbrev pub write_message : Bool → Sender → Sender × ℤ
write_message written s =
    if written then (record s { wire = s.wire ++ s.message ∷ [] }, pos 0) else (s, negsuc 0)

abbrev pub set_type : ℕ → Sender → Sender
set_type t s = record s { message = record s.message { message_type = t } }

pub write_message-TypesAre :
    (P : ℕ → Type 0) (written : Bool) (s : Sender)
    → TypesAre P s.wire
    → P s.message.message_type
    → TypesAre P (write_message written s).0.wire
write_message-TypesAre P true s all new = TypesAre-snoc P s.wire s.message all new
write_message-TypesAre P false s all new = all
