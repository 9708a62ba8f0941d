-- ===== src/Proxy.antt =====
-- crates/mc-proxy/src: the server and the proxy.
pub mod Follow
pub mod Burst
pub mod Session
pub mod Relay
pub mod Captured
pub mod Frames
pub mod Ids
pub mod Inventory
pub mod LoginPacket
pub mod Pickup
pub mod Play
pub mod Position
pub mod Chunk
pub mod Connection
pub mod Registry
pub mod State
mod Examples
