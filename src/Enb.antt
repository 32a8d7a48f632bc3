-- ===== src/Enb.antt =====
-- serverLTE: the eNodeB.
pub mod ClientObject
pub mod Server
pub mod Packet
pub mod Ping
pub mod Consistent
pub mod Transfer
pub mod Start
pub mod Directory
pub mod Threads
pub mod Downlink
pub mod Shutdown
