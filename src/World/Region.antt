-- ===== src/World/Region.antt =====
-- crates/mc-world/src/region.rs: the region files. The file is the list of its bytes; the two
-- decompressors are parameters. Numbers are bit patterns.
pub mod Name
pub mod Index
use pico_server_rs.Base.{
  ℕ, zero, suc, ◌+◌, ◌-◌, ◌*◌, ◌/◌, ◌%◌, ◌^◌, List, [], ◌∷◌, ◌++◌, Bool, true, false, Option, none,
  some, ◌==◌, leb, ltb, length, take, drop, get_elem?, if◌then◌else◌, and_then,
}
use pico_server_rs.Base.Words.{Bytes, as_usize, add_i32, sub_i32, of_be}
use pico_server_rs.Base.Read.{Read, ok, err, panic}
use pico_server_rs.World.Nbt.{NbtValue, read_compound}
use pico_server_rs.World.Nbt.Tag.{NbtError}
use pico_server_rs.World.Region.Name.{region_of_name}

-- `RegionError`. What an I/O error carries is left out.
pub data RegionError : Type 0 where
  io : RegionError
  nbt : NbtError → RegionError
  header_too_small : ℕ → RegionError
  chunk_not_present : ℕ → ℕ → RegionError
  unsupported_compression : ℕ → RegionError
  length_mismatch : ℕ → ℕ → RegionError

-- A result, or a panic.
pub data Answer {ℓ} (A : Type ℓ) : Type ℓ where
  given : A → Answer A
  failed : RegionError → Answer A
  panics : Answer A

infixl 5 ◌>>=◌
abbrev pub ◌>>=◌ {ℓ κ} : {A : Type ℓ} {B : Type κ} → Answer A → (A → Answer B) → Answer B
given a >>= f = f a
failed e >>= f = failed e
panics >>= f = panics

-- `RegionChunk`.
pub record RegionChunk : Type 0 where
  pub chunk_x : ℕ
  pub chunk_z : ℕ
  pub root : NbtValue
  pub timestamp : ℕ

-- `RegionFile`. The file stays as it was opened; `load_chunk` seeks before it reads.
pub record RegionFile : Type 0 where
  pub file : Bytes
  pub region_x : ℕ
  pub region_z : ℕ
  pub locations : List ℕ
  pub timestamps : List ℕ

-- `seek` and `read_exact`.
abbrev pub read_at : Bytes → ℕ → ℕ → Answer Bytes
read_at file pos n =
    if leb (pos + n) (length file) then given (take n (drop pos file)) else failed io

-- `u32::from_be_bytes` of the four bytes at each of `count` offsets, from `bytes` on.
unfoldable pub read_table : ℕ → Bytes → List ℕ
read_table zero bytes = []
read_table (suc count) bytes = of_be 0 (take 4 bytes) ∷ read_table count (drop 4 bytes)

-- What `RegionFile::open` returns for a file with this name and this header.
unfoldable pub from_header : Bytes → Bytes → Bytes → RegionFile
unfolding region_of_name read_table
from_header name file header =
    let (region_x, region_z) = region_of_name name in
    record {
      file = file;
      region_x = region_x;
      region_z = region_z;
      locations = read_table 1024 header;
      timestamps = read_table 1024 (drop 4096 header);
    }

-- `RegionFile::open`, for a file with this name and what opening it returns.
unfoldable pub open_region : Bytes → Option Bytes → Answer RegionFile
unfolding from_header
open_region name none = failed io
open_region name (some file) =
    if ltb (length file) 8192
    then failed (header_too_small (length file))
    else read_at file 0 8192 >>= λ header. given (from_header name file header)

-- `region_x * 32` on an i32.
abbrev pub times_32 : ℕ → ℕ
times_32 v = v * 32 % 2 ^ 32

-- `RegionFile::local_index`, on one coordinate.
unfoldable pub local_coordinate : ℕ → ℕ → ℕ
local_coordinate chunk region = as_usize (sub_i32 chunk (times_32 region))

-- `lx + lz * 32` on what `local_index` returns.
unfoldable pub local_index : RegionFile → ℕ → ℕ → ℕ
unfolding local_coordinate
local_index region chunk_x chunk_z =
    (local_coordinate chunk_x region.region_x + local_coordinate chunk_z region.region_z * 32)
    % 2 ^ 64

-- `self.locations[i]`, which panics out of bounds.
abbrev pub at_index : List ℕ → ℕ → Answer ℕ
at_index table i = elim (get_elem? table i) [ none ↦ panics | some v ↦ given v ]

-- `RegionFile::has_chunk`.
unfoldable pub has_chunk : RegionFile → ℕ → ℕ → Answer Bool
unfolding local_index
has_chunk region chunk_x chunk_z = do
  loc ← at_index region.locations (local_index region chunk_x chunk_z)
  given (if loc == 0 then false else true)

abbrev pub or_io : Option Bytes → Answer Bytes
or_io none = failed io
or_io (some bytes) = given bytes

abbrev pub or_nbt : Read NbtError NbtValue → Answer NbtValue
or_nbt (ok v rest) = given v
or_nbt (err e rest) = failed (nbt e)
or_nbt panic = panics

-- What reading a stream of each format to its end returns: `none` is an I/O error.
pub record Decoders : Type 0 where
  pub gzip : Bytes → Option Bytes
  pub zlib : Bytes → Option Bytes

module _ (decoders : Decoders) where
  -- The match on the compression type.
  unfoldable pub decompress : ℕ → Bytes → Answer Bytes
  decompress compression raw =
      if compression == 1
      then or_io (decoders.gzip raw)
      else if compression == 2
      then or_io (decoders.zlib raw)
      else if compression == 3
      then given raw
      else failed (unsupported_compression compression)

  -- The part of `load_chunk` behind the location.
  unfoldable pub read_chunk : Bytes → ℕ → Answer NbtValue
  unfolding decompress read_compound
  read_chunk file loc = do
    let offset = loc / 256 * 4096
    len_buf ← read_at file offset 4
    comp_buf ← read_at file (offset + 4) 1
    raw ← read_at file (offset + 5) (of_be 0 len_buf)
    decompressed ← decompress (of_be 0 comp_buf) raw
    or_nbt (read_compound decompressed)

  -- `RegionFile::load_chunk`.
  unfoldable pub load_chunk : RegionFile → ℕ → ℕ → Answer RegionChunk
  unfolding local_index read_chunk
  load_chunk region chunk_x chunk_z = do
    let idx = local_index region chunk_x chunk_z
    loc ← at_index region.locations idx
    if loc == 0 then failed (chunk_not_present chunk_x chunk_z) else do
      root ← read_chunk region.file loc
      timestamp ← at_index region.timestamps idx
      given (record { chunk_x = chunk_x; chunk_z = chunk_z; root = root; timestamp = timestamp })

-- The inner loop of `chunk_coords`: `count` values of lx from `lx` on, in row lz.
unfoldable pub row_coords : RegionFile → ℕ → ℕ → ℕ → Answer (List (ℕ × ℕ))
row_coords region lz zero lx = given []
row_coords region lz (suc count) lx = do
  let rest = row_coords region lz count (suc lx)
  loc ← at_index region.locations (lx + lz * 32)
  coords ← rest
  given (
      if loc == 0
      then coords
      else (add_i32 (times_32 region.region_x) lx, add_i32 (times_32 region.region_z) lz) ∷ coords)

-- The outer loop.
unfoldable pub all_rows : RegionFile → ℕ → ℕ → Answer (List (ℕ × ℕ))
unfolding row_coords
all_rows region zero lz = given []
all_rows region (suc count) lz = do
  let rest = all_rows region count (suc lz)
  row ← row_coords region lz 32 0
  rows ← rest
  given (row ++ rows)

-- `RegionFile::chunk_coords`.
unfoldable pub chunk_coords : RegionFile → Answer (List (ℕ × ℕ))
unfolding all_rows
chunk_coords region = all_rows region 32 0
