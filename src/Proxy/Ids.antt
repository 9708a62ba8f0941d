-- ===== src/Proxy/Ids.antt =====
-- crates/mc-proxy/src/packet_ids.rs: the packet ids of the play state.
pub mod Clientbound
pub mod Serverbound
pub mod Dispatch
