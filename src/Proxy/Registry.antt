-- ===== src/Proxy/Registry.antt =====
-- `build_registry_packets` of crates/mc-proxy/src/config_handler.rs: the packets of the configuration
-- phase. The registries of registry_data.rs and the captured tags are arguments.
pub mod RoundTrip
mod Examples
use pico_server_rs.Base.{ℕ, List, [], ◌∷◌, ◌++◌, map, length}
use pico_server_rs.Base.Words.{Bytes, as_i32}
use pico_server_rs.Base.Codec.{Writer, ◌▹◌}
use pico_server_rs.Varint.{write_var_int}
use pico_server_rs.Proto.Text.{write_string}

-- "minecraft:vanilla", "minecraft", "core" and "26.2".
abbrev pub vanilla : Bytes
vanilla =
    109 ∷ 105 ∷ 110 ∷ 101 ∷ 99 ∷ 114 ∷ 97 ∷ 102 ∷ 116 ∷ 58 ∷ 118 ∷ 97 ∷ 110 ∷ 105 ∷ 108 ∷ 108 ∷ 97
    ∷ []

abbrev pub minecraft : Bytes
minecraft = 109 ∷ 105 ∷ 110 ∷ 101 ∷ 99 ∷ 114 ∷ 97 ∷ 102 ∷ 116 ∷ []

abbrev pub core : Bytes
core = 99 ∷ 111 ∷ 114 ∷ 101 ∷ []

abbrev pub core_version : Bytes
core_version = 50 ∷ 54 ∷ 46 ∷ 50 ∷ []

unfoldable pub features_body : Bytes
features_body = (write_var_int 1 ▹ write_string vanilla) []

unfoldable pub packs_body : Bytes
packs_body =
    (write_var_int 1 ▹ write_string minecraft ▹ write_string core ▹ write_string core_version) []

-- `for entry_id in entries { ... }`
unfoldable pub write_entry_ids : List Bytes → Writer
write_entry_ids [] buf = buf
write_entry_ids (id ∷ ids) buf = write_entry_ids ids ((write_string id ▹ write_var_int 0) buf)

-- The body for one registry, a key and the ids of its entries.
unfoldable pub registry_body : Bytes × List Bytes → Bytes
unfolding write_entry_ids
registry_body (key, entries) =
    (write_string key ▹ write_var_int (as_i32 (length entries)) ▹ write_entry_ids entries) []

abbrev pub registry_data : Bytes × List Bytes → ℕ × Bytes
registry_data registry = (0x07, registry_body registry)

-- `build_registry_packets`.
unfoldable pub build_registry_packets : List (Bytes × List Bytes) → Bytes → List (ℕ × Bytes)
unfolding features_body packs_body registry_body
build_registry_packets registries tags =
    ((0x0c, features_body) ∷ (0x0e, packs_body) ∷ map registry_data registries)
    ++ (0x0d, tags) ∷ (0x03, []) ∷ []
