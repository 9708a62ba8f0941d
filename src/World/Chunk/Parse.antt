-- ===== src/World/Chunk/Parse.antt =====
-- `Chunk::from_nbt` and the parsers below it, crates/mc-world/src/chunk.rs.
use pico_server_rs.Base.{
  ℕ, zero, suc, ◌+◌, ◌-◌, ◌/◌, ◌%◌, ◌^◌, List, [], ◌∷◌, Option, none, some, ltb, length,
  if◌then◌else◌, and_then, unwrap_or,
}
use pico_server_rs.Base.Words.{Bytes, min_i32}
use pico_server_rs.World.Text.{
  air, unknown, x_pos, z_pos, data_version_key, status_key, sections_key, block_entities_key,
  heightmaps_key, y_key, block_states_key, data_key, palette_key, biomes_key, name_key,
  properties_key, question_mark, entity_x, entity_y, entity_z, entity_id,
}
use pico_server_rs.World.Nbt.{
  NbtValue, byte, int, string, NbtItems, nil, item, NbtEntries, done, entry,
}
use pico_server_rs.World.Nbt.Get.{
  find, as_byte, as_int, as_string, as_list, as_compound, as_long_array, get_string, get_int,
  get_compound, get_list,
}
use pico_server_rs.World.Packed.{calculate_bits_per_block}
use pico_server_rs.World.Section.{BlockState, ChunkSection}
use pico_server_rs.World.Chunk.{BlockEntity, Chunk, i8_as_i32, times_16}

-- `?` on an option.
infixl 5 ◌>>=◌
abbrev ◌>>=◌ {ℓ κ} : {A : Type ℓ} {B : Type κ} → Option A → (A → Option B) → Option B
o >>= f = and_then o f

-- `v.to_string()` for a number of at most ten digits.
abbrev pub digits_of : ℕ → ℕ → Bytes → Bytes
digits_of zero v rest = rest
digits_of (suc places) v rest =
    let text = (48 + v % 10) ∷ rest in if ltb v 10 then text else digits_of places (v / 10) text

-- `i.to_string()` for the pattern of a signed number of w bits.
unfoldable pub to_string : ℕ → ℕ → Bytes
to_string w v = if ltb v (2 ^ (w - 1)) then digits_of 10 v [] else 45 ∷ digits_of 10 (2 ^ w - v) []

-- The text of a block property.
unfoldable pub property_text : NbtValue → Bytes
unfolding to_string
property_text (string s) = s
property_text (int i) = to_string 32 i
property_text (byte b) = to_string 8 b
property_text _ = question_mark

abbrev pub properties_of : NbtEntries → List (Bytes × Bytes)
unfolding property_text
properties_of done = []
properties_of (entry k v es) = (k, property_text v) ∷ properties_of es

-- One entry of the palette.
unfoldable pub block_state : NbtValue → BlockState
unfolding get_string get_compound
block_state v = record {
  name = unwrap_or air (get_string v name_key);
  properties = elim (get_compound v properties_key) [ none ↦ [] | some es ↦ properties_of es ];
}

module _ {ℓ} {A : Type ℓ} where
  -- `iter().map(f)`
  unfoldable pub map_items : (NbtValue → A) → NbtItems → List A
  map_items f nil = []
  map_items f (item v xs) = f v ∷ map_items f xs

  abbrev pub some_first : Option A → List A → List A
  some_first none rest = rest
  some_first (some a) rest = a ∷ rest

  -- `iter().filter_map(f)`
  unfoldable pub filter_items : (NbtValue → Option A) → NbtItems → List A
  filter_items f nil = []
  filter_items f (item v xs) = some_first (f v) (filter_items f xs)

  -- The elements of a list, where there is one.
  unfoldable pub listed : (NbtValue → Option A) → Option NbtItems → List A
  unfolding filter_items
  listed f none = []
  listed f (some xs) = filter_items f xs

-- `parse_palette`.
unfoldable pub parse_palette : NbtEntries → Option (List BlockState)
unfolding find block_state map_items
parse_palette block_states =
    and_then (and_then (find palette_key block_states) as_list)
      (λ xs. some (map_items block_state xs))

abbrev pub longs : NbtEntries → List ℕ
unfolding find
longs es = unwrap_or [] (and_then (find data_key es) as_long_array)

-- The palette, the data and the width of the blocks, all empty where there is no palette.
unfoldable pub parse_blocks : NbtValue → List BlockState × List ℕ × ℕ
unfolding get_compound parse_palette calculate_bits_per_block
parse_blocks nbt =
    unwrap_or ([], [], 0)
      (and_then (get_compound nbt block_states_key) λ bs.
        and_then (parse_palette bs)
          λ palette. some (palette, longs bs, calculate_bits_per_block (length palette)))

-- The palette and the data of the biomes.
unfoldable pub parse_biomes : NbtValue → List Bytes × List ℕ
unfolding get_compound find listed
parse_biomes nbt =
    unwrap_or ([], [])
      (and_then (get_compound nbt biomes_key)
        λ bio. some (listed as_string (and_then (find palette_key bio) as_list), longs bio))

-- The section with this y.
unfoldable pub section_of : NbtValue → ℕ → ChunkSection
unfolding parse_blocks parse_biomes
section_of nbt y =
    let (palette, block_data, bits_per_block) = parse_blocks nbt in
    let (biome_palette, biome_data) = parse_biomes nbt in
    record {
      y = y;
      palette = palette;
      block_data = block_data;
      bits_per_block = bits_per_block;
      biome_palette = biome_palette;
      biome_data = biome_data;
    }

-- `parse_section`.
unfoldable pub parse_section : NbtValue → Option ChunkSection
unfolding find section_of
parse_section nbt =
    and_then (and_then (as_compound nbt) (λ entries. and_then (find y_key entries) as_byte))
      (λ y. some (section_of nbt y))

-- `parse_block_entity`.
unfoldable pub parse_block_entity : NbtValue → Option BlockEntity
unfolding find
parse_block_entity nbt = do
  entries ← as_compound nbt
  x ← and_then (find entity_x entries) as_int
  y ← and_then (find entity_y entries) as_int
  z ← and_then (find entity_z entries) as_int
  id ← and_then (find entity_id entries) as_string
  some (record { x = x; y = y; z = z; id = id; fields = entries })

abbrev pub long_arrays : NbtEntries → List (Bytes × List ℕ)
long_arrays done = []
long_arrays (entry k v es) =
    some_first (and_then (as_long_array v) (λ words. some (k, words))) (long_arrays es)

-- `sections.iter().map(|s| s.y as i32 * 16).min()`
abbrev pub lowest : List ChunkSection → Option ℕ
lowest [] = none
lowest (s ∷ sections) =
    let bottom = times_16 (i8_as_i32 s.y) in
    elim (lowest sections) [ none ↦ some bottom | some rest ↦ some (min_i32 bottom rest) ]

-- `Chunk::from_nbt`.
unfoldable pub from_nbt : NbtValue → Option Chunk
unfolding get_int get_string get_list get_compound parse_section parse_block_entity listed
from_nbt v = do
  x ← get_int v x_pos
  z ← get_int v z_pos
  let sections = listed parse_section (get_list v sections_key)
  some (record {
    x = x;
    z = z;
    data_version = unwrap_or 0 (get_int v data_version_key);
    status = unwrap_or unknown (get_string v status_key);
    sections = sections;
    block_entities = listed parse_block_entity (get_list v block_entities_key);
    heightmaps = elim (get_compound v heightmaps_key) [ none ↦ [] | some es ↦ long_arrays es ];
    min_y = unwrap_or 0 (lowest sections);
  })
