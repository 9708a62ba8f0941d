-- ===== src/World/Text.antt =====
-- The texts of crates/mc-world/src/chunk.rs, as bytes, and the comparison of texts.
use pico_server_rs.Base.{[], ◌∷◌, Bool, true, false, ◌==◌, ◌&&◌}
use pico_server_rs.Base.Words.{Bytes}

-- `==` on strings.
abbrev pub same_text : Bytes → Bytes → Bool
same_text [] [] = true
same_text [] (c ∷ t) = false
same_text (b ∷ s) [] = false
same_text (b ∷ s) (c ∷ t) = b == c && same_text s t

-- "minecraft:air"
abbrev pub air : Bytes
air = 109 ∷ 105 ∷ 110 ∷ 101 ∷ 99 ∷ 114 ∷ 97 ∷ 102 ∷ 116 ∷ 58 ∷ 97 ∷ 105 ∷ 114 ∷ []

-- "unknown"
abbrev pub unknown : Bytes
unknown = 117 ∷ 110 ∷ 107 ∷ 110 ∷ 111 ∷ 119 ∷ 110 ∷ []

-- "xPos"
abbrev pub x_pos : Bytes
x_pos = 120 ∷ 80 ∷ 111 ∷ 115 ∷ []

-- "zPos"
abbrev pub z_pos : Bytes
z_pos = 122 ∷ 80 ∷ 111 ∷ 115 ∷ []

-- "DataVersion"
abbrev pub data_version_key : Bytes
data_version_key = 68 ∷ 97 ∷ 116 ∷ 97 ∷ 86 ∷ 101 ∷ 114 ∷ 115 ∷ 105 ∷ 111 ∷ 110 ∷ []

-- "Status"
abbrev pub status_key : Bytes
status_key = 83 ∷ 116 ∷ 97 ∷ 116 ∷ 117 ∷ 115 ∷ []

-- "sections"
abbrev pub sections_key : Bytes
sections_key = 115 ∷ 101 ∷ 99 ∷ 116 ∷ 105 ∷ 111 ∷ 110 ∷ 115 ∷ []

-- "block_entities"
abbrev pub block_entities_key : Bytes
block_entities_key =
    98 ∷ 108 ∷ 111 ∷ 99 ∷ 107 ∷ 95 ∷ 101 ∷ 110 ∷ 116 ∷ 105 ∷ 116 ∷ 105 ∷ 101 ∷ 115 ∷ []

-- "Heightmaps"
abbrev pub heightmaps_key : Bytes
heightmaps_key = 72 ∷ 101 ∷ 105 ∷ 103 ∷ 104 ∷ 116 ∷ 109 ∷ 97 ∷ 112 ∷ 115 ∷ []

-- "MOTION_BLOCKING"
abbrev pub motion_blocking : Bytes
motion_blocking = 77 ∷ 79 ∷ 84 ∷ 73 ∷ 79 ∷ 78 ∷ 95 ∷ 66 ∷ 76 ∷ 79 ∷ 67 ∷ 75 ∷ 73 ∷ 78 ∷ 71 ∷ []

-- "WORLD_SURFACE"
abbrev pub world_surface : Bytes
world_surface = 87 ∷ 79 ∷ 82 ∷ 76 ∷ 68 ∷ 95 ∷ 83 ∷ 85 ∷ 82 ∷ 70 ∷ 65 ∷ 67 ∷ 69 ∷ []

-- "Y"
abbrev pub y_key : Bytes
y_key = 89 ∷ []

-- "block_states"
abbrev pub block_states_key : Bytes
block_states_key = 98 ∷ 108 ∷ 111 ∷ 99 ∷ 107 ∷ 95 ∷ 115 ∷ 116 ∷ 97 ∷ 116 ∷ 101 ∷ 115 ∷ []

-- "data"
abbrev pub data_key : Bytes
data_key = 100 ∷ 97 ∷ 116 ∷ 97 ∷ []

-- "palette"
abbrev pub palette_key : Bytes
palette_key = 112 ∷ 97 ∷ 108 ∷ 101 ∷ 116 ∷ 116 ∷ 101 ∷ []

-- "biomes"
abbrev pub biomes_key : Bytes
biomes_key = 98 ∷ 105 ∷ 111 ∷ 109 ∷ 101 ∷ 115 ∷ []

-- "Name"
abbrev pub name_key : Bytes
name_key = 78 ∷ 97 ∷ 109 ∷ 101 ∷ []

-- "Properties"
abbrev pub properties_key : Bytes
properties_key = 80 ∷ 114 ∷ 111 ∷ 112 ∷ 101 ∷ 114 ∷ 116 ∷ 105 ∷ 101 ∷ 115 ∷ []

-- "?"
abbrev pub question_mark : Bytes
question_mark = 63 ∷ []

-- "x"
abbrev pub entity_x : Bytes
entity_x = 120 ∷ []

-- "y"
abbrev pub entity_y : Bytes
entity_y = 121 ∷ []

-- "z"
abbrev pub entity_z : Bytes
entity_z = 122 ∷ []

-- "id"
abbrev pub entity_id : Bytes
entity_id = 105 ∷ 100 ∷ []
