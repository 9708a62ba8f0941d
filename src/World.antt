-- ===== src/World.antt =====
-- crates/mc-world: reading the files that the game stores a world in.
pub mod Nbt
mod Examples
pub mod Packed
pub mod Text
pub mod Section
pub mod Chunk
pub mod Region
pub mod Store
