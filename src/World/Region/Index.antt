-- ===== src/World/Region/Index.antt =====
-- The index of a chunk in the tables of its region, crates/mc-world/src/region.rs.
use pico_server_rs.Base.{
  ℕ, zero, suc, ◌+◌, ◌*◌, ◌%◌, ◌^◌, ◌<◌, ◌≤◌, ◌≡◌, refl, ap, ◌∙◌, Bool, true, false, Option, none,
  some, length, drop, take, ltb, arith, if◌then◌else◌, le→leb, le→ltb,
}
use mathlib.Core.Path.{subst}
use pico_server_rs.Base.Words.{Bytes}
use pico_server_rs.World.Region.Name.{region_name, region_of_name}
use pico_server_rs.World.Region.Name.RoundTrip.{region_of_name-region_name}
use pico_server_rs.World.Region.{
  RegionFile, Answer, given, failed, panics, header_too_small, io, ◌>>=◌, local_coordinate,
  local_index, read_table, from_header, open_region, read_at,
}
use pico_server_rs.World.Store.{floor_32}

length-read_table : (count : ℕ) (bytes : Bytes) → length (read_table count bytes) ≡ count
unfolding read_table
length-read_table zero bytes = refl
length-read_table (suc count) bytes = ap suc (length-read_table count (drop 4 bytes))

local-floor_32 : (v : ℕ) → v < 2 ^ 32 → local_coordinate v (floor_32 v) ≡ v % 32
unfolding local_coordinate
local-floor_32 v h = ground arith

floor_32-bound : (v : ℕ) → v < 2 ^ 32 → floor_32 v < 2 ^ 32
floor_32-bound v h = ground arith

-- What holds of a region that `open_region` returns for a file with this name.
abbrev Opened : Bytes → Answer RegionFile → Type 0
Opened name (given region) =
    (region.region_x ≡ (region_of_name name).0)
    × (region.region_z ≡ (region_of_name name).1)
    × (length region.locations ≡ 1024)
    × (length region.timestamps ≡ 1024)
Opened name (failed e) = Unit {0}
Opened name panics = Unit {0}

from_header-Opened : (name file header : Bytes) → Opened name (given (from_header name file header))
unfolding from_header
from_header-Opened name file header =
    (refl, refl, length-read_table 1024 header, length-read_table 1024 (drop 4096 header))

Opened-if :
    (name : Bytes) (b : Bool) (p q : Answer RegionFile)
    → Opened name p
    → Opened name q
    → Opened name (if b then p else q)
Opened-if name true p q h k = h
Opened-if name false p q h k = k

Opened-header :
    (name file : Bytes) (header : Answer Bytes)
    → Opened name (header >>= λ bytes. given (from_header name file bytes))
Opened-header name file (given bytes) = from_header-Opened name file bytes
Opened-header name file (failed e) = tt
Opened-header name file panics = tt

open_region-Opened :
    (name : Bytes) (content : Option Bytes) → Opened name (open_region name content)
unfolding open_region
open_region-Opened name none = tt
open_region-Opened name (some file) =
    Opened-if name (ltb (length file) 8192) (failed (header_too_small (length file)))
      (read_at file 0 8192 >>= λ bytes. given (from_header name file bytes)) tt
      (Opened-header name file (read_at file 0 8192))

-- A file with room for the header opens.
pub open_region-enough :
    (name file : Bytes)
    → 8192 ≤ length file
    → open_region name (some file) ≡ given (from_header name file (take 8192 file))
unfolding open_region
open_region-enough name file h =
    let from = λ (r : Answer Bytes). r >>= λ bytes. given (from_header name file bytes) in
    ap
      (λ (b : Bool).
        if b then failed (header_too_small (length file)) else from (read_at file 0 8192))
      (le→ltb (length file) 8192 h)
    ∙ ap (λ (b : Bool). from (if b then given (take 8192 file) else failed io))
        (le→leb 8192 (length file) h)

-- Where the file of the region x >> 5, z >> 5 opens, the index that chunk x, z has in its tables is
-- x % 32 + z % 32 * 32, and both tables have an entry there: negative coordinates, too, stay inside.
pub local_index-inside :
    (content : Option Bytes) (region : RegionFile) (x z : ℕ)
    → x < 2 ^ 32
    → z < 2 ^ 32
    → open_region (region_name (floor_32 x) (floor_32 z)) content ≡ given region
    → (local_index region x z ≡ x % 32 + z % 32 * 32)
      × (local_index region x z < length region.locations)
      × (local_index region x z < length region.timestamps)
unfolding local_index
local_index-inside content region x z hx hz e =
    let name = region_name (floor_32 x) (floor_32 z) in
    let names =
      region_of_name-region_name (floor_32 x) (floor_32 z) (floor_32-bound x hx)
        (floor_32-bound z hz) in
    let (same_x, same_z, locations, timestamps) =
      subst (Opened name) e (open_region-Opened name content) in
    let across : local_coordinate x region.region_x ≡ x % 32 =
      ap (local_coordinate x) (same_x ∙ ap (λ (p : ℕ × ℕ). p.0) names) ∙ local-floor_32 x hx in
    let along : local_coordinate z region.region_z ≡ z % 32 =
      ap (local_coordinate z) (same_z ∙ ap (λ (p : ℕ × ℕ). p.1) names) ∙ local-floor_32 z hz in
    let index : local_index region x z ≡ x % 32 + z % 32 * 32 = rw (across, along) (omega arith) in
    (index, omega (arith, index, locations), omega (arith, index, timestamps))
