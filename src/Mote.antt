-- ===== src/Mote.antt =====
-- mote: run a command on another machine.
pub mod Hex
pub mod Packet
pub mod Noise
pub mod Secure
pub mod Handshake
pub mod Daemon
pub mod Password
pub mod Cache
pub mod Cpace
pub mod Config
pub mod Session
