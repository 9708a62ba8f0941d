-- ===== src/World/Chunk/Coordinates.antt =====
-- The coordinates of `Chunk::get_block`, crates/mc-world/src/chunk.rs.
use pico_server_rs.Base.{ℕ, ◌/◌, ◌%◌, ◌^◌, ◌<◌, ◌≡◌, refl, ◌∙◌, sym, bit_and, arith}
use pico_server_rs.Base.Words.{add_i32}
use pico_server_rs.Base.Bits.{low_bits}
use pico_server_rs.World.Chunk.{
  Chunk, i8_as_i32, times_16, floor_16, name_in, get_section, get_block,
}

low_four : (v : ℕ) → bit_and v 15 ≡ v % 16
low_four v = low_bits 4 v

section_of : (v : ℕ) → v < 2 ^ 32 → floor_16 v % 2 ^ 8 ≡ v / 16 % 256
section_of v h = ground arith

get_block-low :
    (chunk : Chunk) (x y z : ℕ)
    → y < 2 ^ 32
    → get_block chunk x y z ≡ name_in (get_section chunk (y / 16 % 256)) (x % 16) (y % 16) (z % 16)
unfolding get_block
get_block-low chunk x y z h = rw (low_four x, low_four y, low_four z, section_of y h) refl

-- `get_block` looks at the lowest 4 bits of x and of z and at the lowest 12 bits of y: heights that
-- are 4096 apart name the same block.
pub get_block-wraps :
    (chunk : Chunk) (x y z : ℕ)
    → y < 2 ^ 32
    → get_block chunk x y z ≡ get_block chunk (x % 16) (y % 4096) (z % 16)
get_block-wraps chunk x y z h =
    let x_same : x % 16 % 16 ≡ x % 16 = omega arith in
    let z_same : z % 16 % 16 ≡ z % 16 = omega arith in
    let y_same : y % 4096 % 16 ≡ y % 16 = omega arith in
    let section_same : y % 4096 / 16 % 256 ≡ y / 16 % 256 = omega arith in
    get_block-low chunk x y z h
    ∙ sym (
        get_block-low chunk (x % 16) (y % 4096) (z % 16) (omega arith)
        ∙ rw (x_same, z_same, y_same, section_same) refl)

abbrev pub height : ℕ → ℕ → ℕ
height section_y local_y = add_i32 (times_16 (i8_as_i32 section_y)) local_y

height-parts :
    (section_y local_y : ℕ)
    → section_y < 256
    → local_y < 16
    → (height section_y local_y / 16 % 256 ≡ section_y) × (height section_y local_y % 16 ≡ local_y)
height-parts section_y local_y hs hl = ground arith

-- The height of layer `local_y`, below 16, of section `section_y`, an i8, leads `get_block` back to
-- that layer of the first section with that number, negative or not, and to air where none has it.
pub get_block-height :
    (chunk : Chunk) (x section_y local_y z : ℕ)
    → section_y < 256
    → local_y < 16
    → get_block chunk x (height section_y local_y) z
      ≡ name_in (get_section chunk section_y) (x % 16) local_y (z % 16)
get_block-height chunk x section_y local_y z hs hl =
    let (s, l) = height-parts section_y local_y hs hl in
    get_block-low chunk x (height section_y local_y) z (omega arith) ∙ rw (s, l) refl
