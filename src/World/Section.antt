-- ===== src/World/Section.antt =====
-- A section of a chunk and its blocks, crates/mc-world/src/chunk.rs. `none` is a panic.
pub mod Cells
pub mod Iterate
use pico_server_rs.Base.{
  unwrap_or, ℕ, zero, suc, ◌+◌, ◌-◌, ◌*◌, ◌/◌, ◌%◌, ◌^◌, List, [], ◌∷◌, Bool, true, false, Option,
  none, some, ◌==◌, ◌||◌, leb, ltb, length, get_elem?, if◌then◌else◌, and_then, bit_and,
}
use mathlib.Core.Bool.{not}
use pico_server_rs.Base.Words.{Bytes}
use pico_server_rs.World.Packed.{extract_packed}
use pico_server_rs.World.Text.{same_text, air}

-- `BlockState`.
pub record BlockState : Type 0 where
  pub name : Bytes
  pub properties : List (Bytes × Bytes)

-- `ChunkSection`. `y` is the bit pattern of an i8, a word that of an i64.
pub record ChunkSection : Type 0 where
  pub y : ℕ
  pub palette : List BlockState
  pub block_data : List ℕ
  pub bits_per_block : ℕ
  pub biome_palette : List Bytes
  pub biome_data : List ℕ

-- `AIR`, the block of an index that the palette does not have.
abbrev pub no_block : BlockState
no_block = record { name = []; properties = [] }

abbrev pub blocks_per_section : ℕ
blocks_per_section = 4096

-- `ChunkSection::palette_index`.
unfoldable pub palette_index : ChunkSection → ℕ → ℕ → ℕ → Option ℕ
palette_index section x y z =
    if section.bits_per_block == 0 || leb (length section.palette) 1
    then some 0
    else extract_packed section.block_data section.bits_per_block (y * 256 + z * 16 + x)

-- `ChunkSection::get_block`.
unfoldable pub get_block : ChunkSection → ℕ → ℕ → ℕ → Option BlockState
unfolding palette_index
get_block section x y z =
    and_then (palette_index section x y z)
      (λ idx. some (unwrap_or no_block (get_elem? section.palette idx)))

-- `ChunkSection::get_block_name`.
unfoldable pub get_block_name : ChunkSection → ℕ → ℕ → ℕ → Option Bytes
unfolding get_block
get_block_name section x y z = and_then (get_block section x y z) (λ block. some block.name)

abbrev pub is_empty {ℓ} : {A : Type ℓ} → List A → Bool
is_empty [] = true
is_empty (a ∷ rest) = false

-- `ChunkSection::get_biome`. The outer option is the panic.
unfoldable pub get_biome : ChunkSection → ℕ → ℕ → ℕ → Option (Option Bytes)
get_biome section x y z =
    if is_empty section.biome_palette || is_empty section.biome_data
    then some none
    else and_then (extract_packed section.biome_data 4 (z / 4 * 4 + x / 4))
        (λ idx. some (get_elem? section.biome_palette idx))

-- What `BlockIter::next` returns: the position in the section and the block.
pub record Placed : Type 0 where
  pub x : ℕ
  pub y : ℕ
  pub z : ℕ
  pub state : BlockState

-- `BlockIter::next`, on the section and the index: the item, and the index behind it. The fuel is
-- the number of blocks that the loop has left.
unfoldable pub next_from : ChunkSection → ℕ → ℕ → Option (Option Placed × ℕ)
unfolding get_block
next_from section zero index = some (none, index)
next_from section (suc fuel) index =
    let rest = next_from section fuel (suc index) in
    let x = bit_and index 15 in
    let z = bit_and (index / 2 ^ 4) 15 in
    let y = bit_and (index / 2 ^ 8) 15 in
    and_then (get_block section x y z) (λ block.
      if not (same_text block.name air)
      then some (some (record { x = x; y = y; z = z; state = block }), suc index)
      else rest)

-- `BlockIter::next`.
unfoldable pub next_block : ChunkSection → ℕ → Option (Option Placed × ℕ)
unfolding next_from
next_block section index = next_from section (blocks_per_section - index) index
