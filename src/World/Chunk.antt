-- ===== src/World/Chunk.antt =====
-- A chunk and its parser, crates/mc-world/src/chunk.rs. Numbers are bit patterns.
pub mod Parse
mod Examples
pub mod Coordinates
pub mod Parsed
pub mod Shifted
pub mod Iterate
use pico_server_rs.Base.{
  ℕ, zero, suc, ◌+◌, ◌-◌, ◌*◌, ◌/◌, ◌%◌, ◌^◌, List, [], ◌∷◌, Bool, true, false, Option, none, some,
  ◌==◌, ◌||◌, leb, ltb, length, get_elem?, if◌then◌else◌, and_then, bit_and, unwrap_or,
}
use pico_server_rs.Base.Words.{Bytes, add_i32}
use pico_server_rs.World.Text.{same_text, air, motion_blocking, world_surface}
use pico_server_rs.World.Nbt.{NbtEntries}
use pico_server_rs.World.Packed.{extract_packed}
use pico_server_rs.World.Section.{BlockState, ChunkSection, Placed, get_block_name, next_block}

-- `BlockEntity`.
pub record BlockEntity : Type 0 where
  pub x : ℕ
  pub y : ℕ
  pub z : ℕ
  pub id : Bytes
  pub fields : NbtEntries

-- `Chunk`.
pub record Chunk : Type 0 where
  pub x : ℕ
  pub z : ℕ
  pub data_version : ℕ
  pub status : Bytes
  pub sections : List ChunkSection
  pub block_entities : List BlockEntity
  pub heightmaps : List (Bytes × List ℕ)
  pub min_y : ℕ

-- `v as i32` for an i8.
abbrev pub i8_as_i32 : ℕ → ℕ
i8_as_i32 v = if ltb v 128 then v else v + (2 ^ 32 - 2 ^ 8)

-- `v * 16` on an i32.
abbrev pub times_16 : ℕ → ℕ
times_16 v = v * 16 % 2 ^ 32

-- `v >> 4` on an i32: the shift of a negative pattern fills with ones.
abbrev pub floor_16 : ℕ → ℕ
floor_16 v = if ltb v (2 ^ 31) then v / 16 else v / 16 + (2 ^ 32 - 2 ^ 28)

abbrev pub with_y : ℕ → List ChunkSection → Option ChunkSection
with_y section_y [] = none
with_y section_y (s ∷ sections) = if s.y == section_y then some s else with_y section_y sections

-- `Chunk::get_section`.
unfoldable pub get_section : Chunk → ℕ → Option ChunkSection
get_section chunk section_y = with_y section_y chunk.sections

abbrev pub name_in : Option ChunkSection → ℕ → ℕ → ℕ → Option Bytes
name_in none x y z = some air
name_in (some section) x y z = get_block_name section x y z

-- `Chunk::get_block`. `none` is a panic.
unfoldable pub get_block : Chunk → ℕ → ℕ → ℕ → Option Bytes
unfolding get_section
get_block chunk world_x world_y world_z =
    let local_x = bit_and world_x 15 in
    let local_z = bit_and world_z 15 in
    let section_y = floor_16 world_y % 2 ^ 8 in
    let local_y = bit_and world_y 15 in
    name_in (get_section chunk section_y) local_x local_y local_z

abbrev is_surface : Bytes → Bool
is_surface k = same_text k motion_blocking || same_text k world_surface

abbrev surface : List (Bytes × List ℕ) → Option (List ℕ)
surface [] = none
surface ((k, words) ∷ maps) = if is_surface k then some words else surface maps

abbrev first : List (Bytes × List ℕ) → Option (List ℕ)
first [] = none
first ((k, words) ∷ maps) = some words

abbrev or_else {ℓ} : {A : Type ℓ} → Option A → Option A → Option A
or_else none b = b
or_else (some a) b = some a

-- `Chunk::get_top_y`. The outer option is the panic.
unfoldable pub get_top_y : Chunk → ℕ → ℕ → Option (Option ℕ)
get_top_y chunk local_x local_z =
    elim (or_else (surface chunk.heightmaps) (first chunk.heightmaps)) [
      | none ↦ some none
      | some words ↦
          and_then (extract_packed words 9 (local_z * 16 + local_x)) (λ v. some (some (v % 2 ^ 32)))
    ]

-- What `ChunkBlockIter::next` returns, and what it keeps: `section_idx`, and `block_iter` as the
-- section and the index of that iterator.
pub record WorldBlock : Type 0 where
  pub world_x : ℕ
  pub world_y : ℕ
  pub world_z : ℕ
  pub state : BlockState

pub record ChunkBlockIter : Type 0 where
  pub section_idx : ℕ
  pub block_iter : Option (ChunkSection × ℕ)

-- `Chunk::iter_blocks`.
abbrev pub iter_blocks : ChunkBlockIter
iter_blocks = record { section_idx = 0; block_iter = none }

-- The item that is made of a block of the section iterator. `none` is the panic of the index.
unfoldable pub place : Chunk → ℕ → Placed → Option WorldBlock
place chunk section_idx p = and_then (get_elem? chunk.sections section_idx) λ section.
    some (record {
      world_x = add_i32 (times_16 chunk.x) p.x;
      world_y = add_i32 (times_16 (i8_as_i32 section.y)) p.y;
      world_z = add_i32 (times_16 chunk.z) p.z;
      state = p.state;
    })

-- An item of the section iterator, and that iterator behind it.
abbrev pub keep :
    ChunkSection → Option Placed × ℕ → Option (Option Placed × Option (ChunkSection × ℕ))
keep section (found, after) = some (found, some (section, after))

-- What the section iterator has, where there is one.
abbrev pub advance_blocks :
    Option (ChunkSection × ℕ) → Option (Option Placed × Option (ChunkSection × ℕ))
advance_blocks none = some (none, none)
advance_blocks (some (section, index)) = and_then (next_block section index) (keep section)

-- The move to the next section, where there is one. `more` is the next round of the loop.
abbrev pub enter :
    (ChunkBlockIter → Option (Option WorldBlock × ChunkBlockIter))
    → ℕ
    → Option (ChunkSection × ℕ)
    → Option ChunkSection
    → Option (Option WorldBlock × ChunkBlockIter)
enter more idx block_iter none = some (none, record { section_idx = idx; block_iter = block_iter })
enter more idx block_iter (some section) =
    more (record { section_idx = suc idx; block_iter = some (section, 0) })

-- A round of the loop behind the call of the section iterator.
unfoldable pub round :
    (ChunkBlockIter → Option (Option WorldBlock × ChunkBlockIter))
    → Chunk
    → ℕ
    → Option Placed × Option (ChunkSection × ℕ)
    → Option (Option WorldBlock × ChunkBlockIter)
unfolding place
round more chunk idx (some p, block_iter) =
    and_then (place chunk idx p)
      λ item. some (some item, record { section_idx = idx; block_iter = block_iter })
round more chunk idx (none, block_iter) = enter more idx block_iter (get_elem? chunk.sections idx)

-- `ChunkBlockIter::next`, on fuel: a round for each section that is left, and one more.
unfoldable pub next_from : ℕ → Chunk → ChunkBlockIter → Option (Option WorldBlock × ChunkBlockIter)
unfolding round
next_from zero chunk it = none
next_from (suc fuel) chunk it =
    and_then (advance_blocks it.block_iter) (round (next_from fuel chunk) chunk it.section_idx)

-- `ChunkBlockIter::next`.
unfoldable pub next_world_block :
    Chunk → ChunkBlockIter → Option (Option WorldBlock × ChunkBlockIter)
unfolding next_from
next_world_block chunk it = next_from (length chunk.sections - it.section_idx + 1) chunk it
