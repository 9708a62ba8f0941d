-- ===== src/Proxy/Chunk.antt =====
-- crates/mc-proxy/src/chunk.rs: the VarInt of a slice, the chunk packet and the drops. The template
-- file is a parameter: its first eight bytes are overwritten.
pub mod Slice
pub mod Sections
pub mod Layers
use pico_server_rs.Base.{
  ℕ, ◌+◌, ◌-◌, ◌*◌, ◌^◌, ◌%◌, List, [], ◌∷◌, ◌++◌, Option, none, some, bit_and, bit_or, leb, ◌==◌,
  if◌then◌else◌, length, ltb, take, drop, zero, suc,
}
use pico_server_rs.Base.Words.{Bytes, add_i32, be_bytes}
use pico_server_rs.Base.Read.{Read, ok, err, panic}
use pico_server_rs.Varint.{add_group}

-- The loop of `read_varint_from_slice`: what is left of the data from `pos` on.
unfoldable pub slice_loop : ℕ → ℕ → Bytes → Option (ℕ × ℕ)
unfolding add_group
slice_loop value pos [] = none
slice_loop value pos (byte ∷ rest) =
    let value' = add_group 32 value (pos * 7) byte in
    let more = slice_loop value' (pos + 1) rest in
    if bit_and byte 0x80 == 0
    then some (value', pos + 1)
    else if leb 5 (pos + 1)
    then none
    else more

-- `read_varint_from_slice`.
unfoldable pub read_varint_from_slice : Bytes → Option (ℕ × ℕ)
unfolding slice_loop
read_varint_from_slice src = slice_loop 0 0 src

-- `LevelChunk`.
pub record LevelChunk : Type 0 where
  pub chunk_x : ℕ
  pub chunk_z : ℕ

-- `buf[at..at + n].copy_from_slice(bs)` for n bytes; it panics where the range is not in the buffer.
abbrev pub copy_from_slice : ℕ → Bytes → Bytes → Option Bytes
copy_from_slice at bs buf =
    if leb (at + length bs) (length buf)
    then some (take at buf ++ bs ++ drop (at + length bs) buf)
    else none

-- The second of the two writes.
abbrev pub copy_z : LevelChunk → Option Bytes → Option Bytes
copy_z chunk (some buf) = copy_from_slice 4 (be_bytes 4 chunk.chunk_z) buf
copy_z chunk none = none

-- `LevelChunk::to_bytes`; `none` is a panic.
unfoldable pub to_bytes : Bytes → LevelChunk → Option Bytes
to_bytes template chunk = copy_z chunk (copy_from_slice 0 (be_bytes 4 chunk.chunk_x) template)

-- The loop of `build_block_drop_map`: n layers from y on, the lowest of which is bedrock.
abbrev pub drops_from : ℕ → ℕ → List (ℕ × ℕ)
drops_from zero y = []
drops_from (suc n) y = (y, if y == (2 ^ 32 - 64) then 85 else 55) ∷ drops_from n (add_i32 y 1)

-- `build_block_drop_map`: the layers -64..=-49.
unfoldable pub block_drop_map : List (ℕ × ℕ)
block_drop_map = drops_from 16 (2 ^ 32 - 64)

abbrev pub lookup : ℕ → List (ℕ × ℕ) → Option ℕ
lookup k [] = none
lookup k ((k', v) ∷ kvs) = if k == k' then some v else lookup k kvs

-- `get_drop_item_id`.
unfoldable pub get_drop_item_id : ℕ → ℕ
unfolding block_drop_map
get_drop_item_id y = elim (lookup y block_drop_map) [ some item ↦ item | none ↦ 55 ]
