-- ===== src/World/Store/Examples.antt =====
-- Concrete region names and files of crates/mc-world/src/region.rs, and a world over no files.
use pico_server_rs.Base.{
  ℕ, zero, suc, ◌+◌, ◌*◌, ◌<◌, ◌≡◌, refl, ap, [], ◌∷◌, Option, some, length, replicate, take, arith,
}
use pico_server_rs.Base.Words.{Bytes}
use pico_server_rs.World.Region.Name.{region_name, region_of_name}
use pico_server_rs.World.Region.Name.RoundTrip.{region_of_name-region_name}
use pico_server_rs.World.Region.{RegionFile, Decoders, from_header, local_index}
use pico_server_rs.World.Region.Index.{local_index-inside, open_region-enough}
use pico_server_rs.World.Store.{floor_32, new_world}
use pico_server_rs.World.Store.Cache.{get_chunks, lookups, get_chunks-new_world}

-- "r.-1.5.mca"
name_of_region : region_name 0xffff_ffff 5 ≡ 114 ∷ 46 ∷ 45 ∷ 49 ∷ 46 ∷ 53 ∷ 46 ∷ 109 ∷ 99 ∷ 97 ∷ []
unfolding region_name
name_of_region = refl

region_of_name-region_name_example : region_of_name (region_name 0xffff_ffff 5) ≡ (0xffff_ffff, 5)
region_of_name-region_name_example =
    region_of_name-region_name 0xffff_ffff 5 (omega arith) (omega arith)

length-replicate : (n v : ℕ) → length (replicate n v) ≡ n
length-replicate zero v = refl
length-replicate (suc n) v = ap suc (length-replicate n v)

-- A region file without chunks, at -1, 1.
abbrev empty_file : Bytes
empty_file = replicate 8192 0

abbrev empty_region : RegionFile
empty_region =
    from_header (region_name (floor_32 0xffff_fff0) (floor_32 40)) empty_file (take 8192 empty_file)

local_index-inside_example :
    (local_index empty_region 0xffff_fff0 40 ≡ 16 + 8 * 32)
    × (local_index empty_region 0xffff_fff0 40 < length empty_region.locations)
    × (local_index empty_region 0xffff_fff0 40 < length empty_region.timestamps)
local_index-inside_example =
    local_index-inside (some empty_file) empty_region 0xffff_fff0 40 (omega arith) (omega arith) (
      open_region-enough (region_name (floor_32 0xffff_fff0) (floor_32 40)) empty_file
        (omega (arith, length-replicate 8192 0)))

-- Streams that are stored as they are.
abbrev stored : Decoders
stored = record { gzip = λ bytes. some bytes; zlib = λ bytes. some bytes }

abbrev one_file : Bytes → Option Bytes
one_file name = some empty_file

get_chunks-new_world_example :
    get_chunks one_file stored new_world ((0, 0) ∷ (0xffff_ffff, 3) ∷ (0, 0) ∷ [])
    ≡ lookups one_file stored ((0, 0) ∷ (0xffff_ffff, 3) ∷ (0, 0) ∷ [])
get_chunks-new_world_example =
    get_chunks-new_world one_file stored ((0, 0) ∷ (0xffff_ffff, 3) ∷ (0, 0) ∷ [])
