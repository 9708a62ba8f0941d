-- ===== src/Proto.antt =====
-- crates/mc-proto/src: the packets of each protocol state and their frames.
pub mod State
pub mod Error
pub mod Packet
pub mod Text
pub mod Frame
pub mod Handshake
pub mod Login
pub mod Status
pub mod Config
pub mod Rounds
mod Examples
