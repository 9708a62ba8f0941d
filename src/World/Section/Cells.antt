-- ===== src/World/Section/Cells.antt =====
-- The blocks of a section as a list of palette indices, one for each cell, the abstract view of
-- `ChunkSection` in crates/mc-world/src/chunk.rs.
use pico_server_rs.Base.{
  ℕ, zero, suc, ◌+◌, ◌*◌, ◌/◌, ◌%◌, ◌^◌, ◌<◌, ◌≤◌, ◌≡◌, refl, sym, ap, ◌∙◌, List, [], ◌∷◌, false,
  some, ◌==◌, ◌||◌, leb, length, get_elem?, All, get_elem?-inside, All-get_elem?, and_then, arith,
  lt→ltb,
}
use pico_server_rs.Base.Words.{IsU64}
use native.Mathlib.Nat.{
  add-mul-mod_self_left, mod-eq_of_lt, div-one, mul_comm, mul-le-mul_right, suc-mul,
}
use pico_server_rs.World.Packed.{extract_packed}
use pico_server_rs.World.Packed.Window.{number_of, drop_digit}
use pico_server_rs.World.Packed.Extract.{extract_packed-number_of}
use pico_server_rs.World.Section.{ChunkSection, palette_index, get_block}

-- The number whose digits of `bits` bits are the cells, the first one lowest.
unfoldable pub packed : ℕ → List ℕ → ℕ
packed bits [] = 0
packed bits (c ∷ cells) = c + 2 ^ bits * packed bits cells

-- A section that holds these cells, packed into its words without gaps.
pub record Holds (section : ChunkSection) (cells : List ℕ) : Type 0 where
  pub words : All IsU64 section.block_data
  pub some_bits : 1 ≤ section.bits_per_block
  pub few_bits : section.bits_per_block ≤ 63
  pub full : length cells ≡ 4096
  pub number : number_of section.block_data ≡ packed section.bits_per_block cells
  pub room : 4096 * section.bits_per_block ≤ 64 * length section.block_data
  pub choice : 1 < length section.palette
  pub known : All (λ c. c < length section.palette) cells
  pub narrow : length section.palette ≤ 2 ^ section.bits_per_block

digit :
    (bits : ℕ) (cells : List ℕ) (i : ℕ)
    → All (λ c. c < 2 ^ bits) cells
    → i < length cells
    → get_elem? cells i ≡ some (packed bits cells / 2 ^ (i * bits) % 2 ^ bits)
unfolding packed
digit bits [] i hs h = absurd (omega arith)
digit bits (c ∷ cells) zero (fits, hs) h =
    let whole = c + 2 ^ bits * packed bits cells in
    let nothing : 0 * bits ≡ 0 = omega arith in
    let start : 2 ^ (0 * bits) ≡ 1 = ap (λ (k : ℕ). 2 ^ k) nothing in
    let lowest : whole % 2 ^ bits ≡ c =
      add-mul-mod_self_left c (2 ^ bits) (packed bits cells) ∙ mod-eq_of_lt fits in
    ap some (
      sym (
        ap (λ (k : ℕ). whole / k % 2 ^ bits) start
        ∙ ap (λ (k : ℕ). k % 2 ^ bits) (div-one whole)
        ∙ lowest))
digit bits (c ∷ cells) (suc i) (fits, hs) h =
    let order : suc i * bits ≡ bits * suc i = mul_comm (suc i) bits in
    let below : bits * i ≡ i * bits = mul_comm bits i in
    digit bits cells i hs (omega arith)
    ∙ ap (λ (k : ℕ). some (k % 2 ^ bits))
        (sym (rw (order, drop_digit bits c (packed bits cells) i fits, below) refl))

All-below : (cells : List ℕ) (n m : ℕ) → n ≤ m → All (λ c. c < n) cells → All (λ c. c < m) cells
All-below [] n m h hs = tt
All-below (c ∷ cells) n m h (k, hs) = (omega arith, All-below cells n m h hs)

entry_room : (i bits : ℕ) → i < 4096 → i * bits + bits ≤ 4096 * bits
entry_room i bits h = omega (arith, mul-le-mul_right bits h, suc-mul i bits)

pub has_choice : (bits size : ℕ) → 1 ≤ bits → 1 < size → (bits == 0 || leb size 1) ≡ false
has_choice bits size h k = ground arith

-- A section that holds a list of cells returns at x, y, z, each below 16, the palette entry of the
-- cell y * 256 + z * 16 + x, and never panics there: `get_block` is the lookup in that list.
pub get_block-Holds :
    (section : ChunkSection) (cells : List ℕ) (x y z : ℕ)
    → Holds section cells
    → x < 16
    → y < 16
    → z < 16
    → get_block section x y z
      ≡ and_then (get_elem? cells (y * 256 + z * 16 + x)) (get_elem? section.palette)
unfolding get_block palette_index
get_block-Holds section cells x y z h hx hy hz =
    let bits = section.bits_per_block in
    let i = y * 256 + z * 16 + x in
    let v = packed bits cells / 2 ^ (i * bits) % 2 ^ bits in
    let last : i * bits + bits ≤ 4096 * bits = entry_room i bits (omega arith) in
    let inside : i * bits < 64 * length section.block_data = omega (arith, h.room, h.some_bits) in
    let cell : get_elem? cells i ≡ some v =
      digit bits cells i (All-below cells (length section.palette) (2 ^ bits) h.narrow h.known)
        (omega (arith, h.full)) in
    let (block, found) =
      get_elem?-inside section.palette v (All-get_elem? _ cells i v h.known cell) in
    let read : extract_packed section.block_data bits i ≡ some v =
      extract_packed-number_of section.block_data bits i h.words h.some_bits h.few_bits
        (omega (arith, h.few_bits))
      ∙ rw (lt→ltb _ _ inside, h.number) refl in
    let chosen : (bits == 0 || leb (length section.palette) 1) ≡ false =
      has_choice bits (length section.palette) h.some_bits h.choice in
    rw (chosen, read, found, cell) (sym found)
