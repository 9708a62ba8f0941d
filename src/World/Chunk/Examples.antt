-- ===== src/World/Chunk/Examples.antt =====
-- Concrete sections and chunks of crates/mc-world/src/chunk.rs.
use pico_server_rs.Base.{
  ℕ, zero, suc, ◌+◌, ◌*◌, ◌<◌, ◌≤◌, ◌≡◌, ◌↔◌, refl, ap, [], ◌∷◌, none, some, length, replicate,
  get_elem?, and_then, All, arith,
}
use pico_server_rs.Base.Words.{IsU64}
use pico_server_rs.World.Text.{air, y_key, block_states_key, palette_key, name_key}
use pico_server_rs.World.Nbt.{NbtValue, byte, string, list, compound, nil, item, done, entry}
use pico_server_rs.World.Packed.Window.{number_of}
use pico_server_rs.World.Section.{
  BlockState, ChunkSection, no_block, get_block, blocks_per_section, next_block,
}
use pico_server_rs.World.Section.Cells.{packed, Holds, get_block-Holds}
use pico_server_rs.World.Section.Iterate.{collect, non_air, iter_non_air-non_air}
use pico_server_rs.World.Chunk.{Chunk, place, iter_blocks, next_world_block}
use pico_server_rs.World.Chunk.Shifted.{collect_blocks, shifted}
use pico_server_rs.World.Chunk.Iterate.{collect_blocks-shifted}
use pico_server_rs.World.Chunk.Parse.{parse_section}
use pico_server_rs.World.Chunk.Parsed.{parse_section-get_block}

abbrev stone : BlockState
stone = record { name = 115 ∷ 116 ∷ 111 ∷ 110 ∷ 101 ∷ []; properties = [] }

abbrev air_block : BlockState
air_block = record { name = air; properties = [] }

-- Stone throughout, at the number y.
abbrev stone_section : ℕ → ChunkSection
stone_section y = record {
  y = y;
  palette = stone ∷ [];
  block_data = [];
  bits_per_block = 0;
  biome_palette = [];
  biome_data = [];
}

-- Two sections of stone, the lower one at y = -1.
abbrev stone_chunk : Chunk
stone_chunk = record {
  x = 2;
  z = 3;
  data_version = 0;
  status = [];
  sections = stone_section 255 ∷ stone_section 0 ∷ [];
  block_entities = [];
  heightmaps = [];
  min_y = 0;
}

-- A section whose cells all have palette entry 1.
abbrev filled : ChunkSection
filled = record {
  y = 0;
  palette = air_block ∷ stone ∷ [];
  block_data = replicate 256 0x1111_1111_1111_1111;
  bits_per_block = 4;
  biome_palette = [];
  biome_data = [];
}

All-replicate : (P : ℕ → Type 0) (n v : ℕ) → P v → All P (replicate n v)
All-replicate P zero v h = tt
All-replicate P (suc n) v h = (h, All-replicate P n v h)

length-replicate : (n v : ℕ) → length (replicate n v) ≡ n
length-replicate zero v = refl
length-replicate (suc n) v = ap suc (length-replicate n v)

filled-Holds : Holds filled (replicate 4096 1)
unfolding number_of packed
filled-Holds = record {
  words = All-replicate IsU64 256 0x1111_1111_1111_1111 (omega arith);
  some_bits = omega arith;
  few_bits = omega arith;
  full = length-replicate 4096 1;
  number = refl;
  room = omega (arith, length-replicate 256 0x1111_1111_1111_1111);
  choice = omega arith;
  known = All-replicate (λ c. c < 2) 4096 1 (omega arith);
  narrow = omega arith;
}

get_block-Holds_example :
    get_block filled 3 5 7
    ≡ and_then (get_elem? (replicate 4096 1) (5 * 256 + 7 * 16 + 3)) (get_elem? filled.palette)
get_block-Holds_example =
    get_block-Holds filled (replicate 4096 1) 3 5 7 filled-Holds (omega arith) (omega arith)
      (omega arith)

iter_non_air-non_air_example :
    collect 4097 (stone_section 255) 0 ≡ non_air (stone_section 255) blocks_per_section 0
iter_non_air-non_air_example = iter_non_air-non_air (stone_section 255)

-- The section { Y: 1, block_states: { palette: [stone, air] } }, without data.
abbrev nbt_section : NbtValue
nbt_section = compound (
    entry y_key (byte 1) (
      entry block_states_key
        (compound (
          entry palette_key
            (list (
              item (compound (entry name_key (string stone.name) done)) (item (compound done) nil)))
            done))
        done))

abbrev bare : ChunkSection
bare = record {
  y = 1;
  palette = stone ∷ air_block ∷ [];
  block_data = [];
  bits_per_block = 4;
  biome_palette = [];
  biome_data = [];
}

nbt_section-bare : parse_section nbt_section ≡ some bare
unfolding parse_section
nbt_section-bare = refl

-- It parses, and then every lookup panics.
parse_section-get_block_example :
    (get_block bare 3 5 7 ≡ none) ↔ ((1 < 2) × (64 * 0 ≤ (5 * 256 + 7 * 16 + 3) * 4))
parse_section-get_block_example =
    parse_section-get_block nbt_section bare 3 5 7 nbt_section-bare (omega arith) tt (omega arith)
      (omega arith) (omega arith)

-- Stone at y = -1, and air above it.
abbrev capped : Chunk
capped = record stone_chunk {
  sections = stone_section 255 ∷ record (stone_section 0) { palette = air_block ∷ [] } ∷ [];
}

collect_blocks-shifted_example :
    collect_blocks 8193 capped iter_blocks ≡ shifted capped capped.sections
collect_blocks-shifted_example = collect_blocks-shifted capped 8193 (omega arith)

-- The first block of the section at y = -1 comes out at height 0 in place of -16.
first_height :
    next_world_block capped iter_blocks
    ≡ some (
      some (record { world_x = 32; world_y = 0; world_z = 48; state = stone }),
      record { section_idx = 1; block_iter = some (stone_section 255, 1) },
    )
unfolding next_world_block next_block place
first_height = refl

-- Without the section behind it, it is a panic.
last_section :
    next_world_block (record capped { sections = stone_section 255 ∷ [] }) iter_blocks ≡ none
unfolding next_world_block next_block place
last_section = refl

-- A section without a palette gives the nameless block as one that is not air.
nameless :
    next_block (record (stone_section 0) { palette = [] }) 0
    ≡ some (some (record { x = 0; y = 0; z = 0; state = no_block }), 1)
unfolding next_block
nameless = refl
