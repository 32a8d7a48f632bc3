-- ===== src/Ue.antt =====
-- clientLTE: the user equipment.
pub mod Sender
pub mod Battery
pub mod Cells
pub mod Access
pub mod Rrc
pub mod Handle
pub mod Main
