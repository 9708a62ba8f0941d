-- ===== src/World/Store.antt =====
-- crates/mc-world/src/world.rs: the world, with its cache of region files. The directory of the region files is
-- a function from names to contents, which stays as it is. `none` is a panic.
pub mod Cache
mod Examples
use pico_server_rs.Base.{
  ℕ, ◌+◌, ◌-◌, ◌/◌, ◌%◌, ◌^◌, List, [], ◌∷◌, Bool, true, false, Option, none, some, ◌==◌, ◌&&◌,
  ◌||◌, ltb, if◌then◌else◌, and_then, bit_and,
}
use pico_server_rs.Base.Words.{Bytes}
use pico_server_rs.World.Text.{same_text, air}
use pico_server_rs.World.Region.Name.{region_name}
use pico_server_rs.World.Region.{
  RegionFile, RegionChunk, Answer, given, failed, panics, Decoders, open_region, load_chunk,
}
use pico_server_rs.World.Section.{is_empty}
use pico_server_rs.World.Chunk.{Chunk, floor_16, get_block, get_top_y}
use pico_server_rs.World.Chunk.Parse.{from_nbt}

-- The cached region files, by their coordinates.
abbrev pub Regions : Type 0
Regions = List ((ℕ × ℕ) × RegionFile)

-- `World`, less its path, which never changes.
pub record World : Type 0 where
  pub regions : Regions

-- `World::open`.
abbrev pub new_world : World
new_world = record { regions = [] }

abbrev pub same_key : ℕ × ℕ → ℕ × ℕ → Bool
same_key (a, b) (c, d) = a == c && b == d

-- `regions.get`.
unfoldable pub cached : ℕ × ℕ → Regions → Option RegionFile
cached key [] = none
cached key ((k, region) ∷ regions) = if same_key k key then some region else cached key regions

-- `v >> 5` on an i32: the shift of a negative pattern fills with ones.
abbrev pub floor_32 : ℕ → ℕ
floor_32 v = if ltb v (2 ^ 31) then v / 32 else v / 32 + (2 ^ 32 - 2 ^ 27)

abbrev pub chunk_of : Answer RegionChunk → Option (Option Chunk)
unfolding from_nbt
chunk_of (given rc) = some (from_nbt rc.root)
chunk_of (failed e) = some none
chunk_of panics = none

module _ (files : Bytes → Option Bytes) (decoders : Decoders) where
  -- `load_chunk` of a region that the world has, and `Chunk::from_nbt`.
  unfoldable pub chunk_in : World → RegionFile → ℕ → ℕ → Option (World × Option Chunk)
  unfolding load_chunk chunk_of
  chunk_in world region chunk_x chunk_z =
      and_then (chunk_of (load_chunk decoders region chunk_x chunk_z))
        (λ chunk. some (world, chunk))

  -- The branch of `get_chunk` for a region that is not cached.
  unfoldable pub with_opened :
      World → ℕ × ℕ → Answer RegionFile → ℕ → ℕ → Option (World × Option Chunk)
  unfolding chunk_in
  with_opened world key (given region) chunk_x chunk_z =
      chunk_in (record { regions = (key, region) ∷ world.regions }) region chunk_x chunk_z
  with_opened world key (failed e) chunk_x chunk_z = some (world, none)
  with_opened world key panics chunk_x chunk_z = none

  unfoldable pub with_cached :
      World → ℕ × ℕ → Option RegionFile → ℕ → ℕ → Option (World × Option Chunk)
  unfolding chunk_in with_opened open_region region_name
  with_cached world key (some region) chunk_x chunk_z = chunk_in world region chunk_x chunk_z
  with_cached world (rx, rz) none chunk_x chunk_z =
      let name = region_name rx rz in
      with_opened world (rx, rz) (open_region name (files name)) chunk_x chunk_z

  -- `World::get_chunk`.
  unfoldable pub get_chunk : World → ℕ → ℕ → Option (World × Option Chunk)
  unfolding cached with_cached
  get_chunk world chunk_x chunk_z =
      let key : ℕ × ℕ = (floor_32 chunk_x, floor_32 chunk_z) in
      with_cached world key (cached key world.regions) chunk_x chunk_z

  -- The name that `get_block_name` returns for a block.
  abbrev pub named : Bytes → Option Bytes
  named name = if same_text name air || is_empty name then none else some name

  -- `World::get_block_name`.
  unfoldable pub get_block_name : World → ℕ → ℕ → ℕ → Option (World × Option Bytes)
  unfolding get_chunk get_block
  get_block_name world world_x world_y world_z =
      and_then (get_chunk world (floor_16 world_x) (floor_16 world_z)) λ (after, found).
        elim found [
          | none ↦ some (after, none)
          | some chunk ↦
              and_then (get_block chunk world_x world_y world_z) (λ name. some (after, named name))
        ]

  -- `World::get_top_y`.
  unfoldable pub world_top_y : World → ℕ → ℕ → Option (World × Option ℕ)
  unfolding get_chunk get_top_y
  world_top_y world world_x world_z =
      and_then (get_chunk world (floor_16 world_x) (floor_16 world_z)) λ (after, found).
        elim found [
          | none ↦ some (after, none)
          | some chunk ↦
              and_then (get_top_y chunk (bit_and world_x 15) (bit_and world_z 15))
                (λ top. some (after, top))
        ]
