-- ===== src/System.antt =====
-- The user equipment and the eNodeB together.
pub mod Rach
pub mod Handshake
pub mod Transfer
pub mod Interleaved
pub mod Network
pub mod KeepAlive
pub mod Notices
pub mod PowerOff
pub mod Shutdown
pub mod Measurement
