-- ===== src/World/Chunk/Parsed.antt =====
-- What the parsers of crates/mc-world/src/chunk.rs establish for the lookups of a section.
use pico_server_rs.Base.{
  ℕ, ◌+◌, ◌*◌, ◌/◌, ◌%◌, ◌^◌, ◌<◌, ◌≤◌, ◌≡◌, ◌↔◌, refl, sym, ap, ◌∙◌, Bool, true, false, Option,
  none, some, ◌==◌, ◌||◌, leb, ltb, length, get_elem?, All, and_then, unwrap_or, arith, Bool-cases,
  Option-cases, inl, inr, if◌then◌else◌, leb→le, leb_false→lt, ltb→lt, ltb_false→le,
}
use mathlib.Core.Path.{subst}
use mathlib.Core.Option.{some-ne-none, none-ne-some, some-injective}
use pico_server_rs.Base.Words.{IsU64}
use pico_server_rs.World.Nbt.{NbtValue}
use pico_server_rs.World.Nbt.Get.{get_compound}
use pico_server_rs.World.Text.{block_states_key}
use pico_server_rs.World.Packed.{calculate_bits_per_block, at_most_16}
use pico_server_rs.World.Packed.Window.{number_of}
use pico_server_rs.World.Packed.Extract.{extract_packed-number_of}
use pico_server_rs.World.Packed.Width.{calculate_bits_per_block-Least}
use pico_server_rs.World.Section.{BlockState, ChunkSection, no_block, palette_index, get_block}
use pico_server_rs.World.Chunk.Parse.{parse_section, section_of, parse_blocks, parse_palette}
use pico_server_rs.World.Section.Cells.{has_choice}
use native.Mathlib.Nat.{mul-le-mul}

-- A section whose width is the one for its palette.
pub record Fits (section : ChunkSection) : Type 0 where
  pub width : section.bits_per_block ≡ calculate_bits_per_block (length section.palette)
  pub size : length section.palette ≤ 2 ^ 63
  pub words : All IsU64 section.block_data

width_bounds :
    (size : ℕ)
    → 1 < size
    → size ≤ 2 ^ 63
    → (4 ≤ calculate_bits_per_block size) × (calculate_bits_per_block size ≤ 16)
width_bounds size h small =
    let (width, least, e) = calculate_bits_per_block-Least size h small in
    let low = least.above in
    let bounds : (4 ≤ at_most_16 width) × (at_most_16 width ≤ 16) = ground arith in
    (omega (arith, bounds.0, e), omega (arith, bounds.1, e))

or_true : (b : Bool) → (b || true) ≡ true
or_true true = refl
or_true false = refl

and_then-none : (f : ℕ → BlockState) (o : Option ℕ) → and_then o (λ i. some (f i)) ≡ none → o ≡ none
and_then-none f none e = refl
and_then-none f (some i) e = absurd (some-ne-none (f i) e)

-- The cell lies in the words that there are.
module _ (section : ChunkSection) (x y z : ℕ) (f : Fits section) (hx : x < 16) (hy : y < 16)
    (hz : z < 16) where
  abbrev cell : ℕ
  cell = y * 256 + z * 16 + x

  one_block : leb (length section.palette) 1 ≡ true → palette_index section x y z ≡ some 0
  unfolding palette_index
  one_block e = rw e (rw (or_true (section.bits_per_block == 0)) refl)

  packed_block :
      leb (length section.palette) 1 ≡ false
      → palette_index section x y z ≡ (
          if ltb (cell * section.bits_per_block) (64 * length section.block_data)
          then some (
              number_of section.block_data
              / 2 ^ (cell * section.bits_per_block)
              % 2 ^ section.bits_per_block)
          else none)
  unfolding palette_index
  packed_block e =
      let bits = section.bits_per_block in
      let (low, high) = width_bounds (length section.palette) (leb_false→lt _ _ e) f.size in
      let some_bits : 1 ≤ bits = omega (arith, low, f.width) in
      let few_bits : bits ≤ 16 = omega (arith, high, f.width) in
      let last : cell ≤ 4095 = omega arith in
      let room : cell * bits ≤ 4095 * 16 = mul-le-mul last few_bits in
      rw (has_choice bits (length section.palette) some_bits (leb_false→lt _ _ e)) (
        extract_packed-number_of section.block_data bits cell f.words some_bits (omega arith)
          (omega arith))

  get_block-none_iff : (get_block section x y z ≡ none) ↔ (
      (1 < length section.palette)
      × (64 * length section.block_data ≤ cell * section.bits_per_block))
  unfolding get_block
  get_block-none_iff =
      let off = cell * section.bits_per_block in
      let end_of_words = 64 * length section.block_data in
      let place = λ (i : ℕ). unwrap_or no_block (get_elem? section.palette i) in
      elim (Bool-cases (leb (length section.palette) 1)) [
        | inl one ↦ (
          λ p. absurd (some-ne-none _ (sym (one_block one) ∙ and_then-none place _ p)),
          λ (more, _). absurd (omega (arith, leb→le _ _ one)),
        )
        | inr many ↦ elim (Bool-cases (ltb off end_of_words)) [
          | inl within ↦
              let index = rw within at (packed_block many) in
              (
                λ p. absurd (some-ne-none _ (sym index ∙ and_then-none place _ p)),
                λ (_, beyond). absurd (omega (arith, ltb→lt _ _ within)),
              )
          | inr beyond ↦
              let index : palette_index section x y z ≡ none = packed_block many ∙ rw beyond refl in
              (
                λ p. (leb_false→lt _ _ many, ltb_false→le _ _ beyond),
                λ h. ap (λ o. and_then o (λ i. some (place i))) index,
              )
        ]
      ]

some-origin :
    {A B : Type 0} (f : A → B) (o : Option A) (b : B)
    → and_then o (λ a. some (f a)) ≡ some b
    → (a : A) × (f a ≡ b)
some-origin f none b e = absurd (none-ne-some b e)
some-origin f (some a) b e = (a, some-injective (f a) b e)

parse_blocks-width :
    (nbt : NbtValue) → (parse_blocks nbt).2 ≡ calculate_bits_per_block (length (parse_blocks nbt).0)
unfolding parse_blocks calculate_bits_per_block
parse_blocks-width nbt = elim (Option-cases (get_compound nbt block_states_key)) [
  | inl e ↦ rw e refl
  | inr (bs, e) ↦ elim (Option-cases (parse_palette bs)) [
    | inl p ↦ rw (e, p) refl
    | inr (palette, p) ↦ rw (e, p) refl
  ]
]

-- Every section that `parse_section` returns has the width for its palette.
parse_section-width :
    (nbt : NbtValue) (section : ChunkSection)
    → parse_section nbt ≡ some section
    → section.bits_per_block ≡ calculate_bits_per_block (length section.palette)
unfolding parse_section section_of
parse_section-width nbt section e =
    let (y, same) = some-origin (section_of nbt) _ section e in
    subst (λ s. s.bits_per_block ≡ calculate_bits_per_block (length s.palette)) same
      (parse_blocks-width nbt)

-- On a section that `parse_section` returns, with at most 2 ^ 63 palette entries and words below
-- 2 ^ 64, `get_block` at x, y, z, each below 16, panics exactly where the palette has more than one
-- entry and the first bit of cell y * 256 + z * 16 + x lies behind the last word.
pub parse_section-get_block :
    (nbt : NbtValue) (section : ChunkSection) (x y z : ℕ)
    → parse_section nbt ≡ some section
    → length section.palette ≤ 2 ^ 63
    → All IsU64 section.block_data
    → x < 16
    → y < 16
    → z < 16
    → (get_block section x y z ≡ none) ↔ (
        (1 < length section.palette)
        × (64 * length section.block_data ≤ (y * 256 + z * 16 + x) * section.bits_per_block))
parse_section-get_block nbt section x y z e size words hx hy hz =
    get_block-none_iff section x y z
      (record { width = parse_section-width nbt section e; size = size; words = words }) hx hy hz
