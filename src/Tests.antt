-- ===== src/Tests.antt =====
-- Tests of the definitions on small inputs, and the theorems at concrete inputs.
mod Maps
mod Device
mod Client
mod Program
mod Logs
mod Threads
mod Enb
mod Start
mod System
mod Network
mod Loops
mod Shutdown
mod PowerOff
