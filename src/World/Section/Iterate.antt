-- ===== src/World/Section/Iterate.antt =====
-- `iter_non_air` and `BlockIter::next` of crates/mc-world/src/chunk.rs, run to the end.
use pico_server_rs.Base.{
  ℕ, zero, suc, ◌+◌, ◌-◌, ◌/◌, ◌%◌, ◌<◌, ◌≡◌, refl, sym, ap, List, [], ◌∷◌, Option, none, some,
  Bool, true, false, ◌==◌, ◌||◌, leb, length, if◌then◌else◌, and_then, arith, Bool-cases,
  Option-cases, inl, inr, bit_and,
}
use mathlib.Core.Bool.{not}
use mathlib.Core.Path.{subst}
use pico_server_rs.Base.Bits.{low_bits}
use pico_server_rs.World.Text.{same_text, air}
use pico_server_rs.World.Section.{
  ChunkSection, Placed, get_block, no_block, palette_index, blocks_per_section, next_from,
  next_block,
}

-- The cell with this index, in the order y, z, x, and its block.
unfoldable pub cell_at : ChunkSection → ℕ → Option Placed
unfolding get_block
cell_at section index =
    let x = index % 16 in
    let z = index / 16 % 16 in
    let y = index / 256 % 16 in
    and_then (get_block section x y z) λ block. some (record { x = x; y = y; z = z; state = block })

-- The cells with a block that is not named air, among the `count` cells from `index` on.
unfoldable pub non_air : ChunkSection → ℕ → ℕ → Option (List Placed)
unfolding cell_at
non_air section zero index = some []
non_air section (suc count) index = and_then (cell_at section index) λ p.
    and_then (non_air section count (suc index))
      λ ps. some (if not (same_text p.state.name air) then p ∷ ps else ps)

abbrev pub push_front : Placed → Option (List Placed) → Option (List Placed)
push_front p rest = and_then rest (λ ps. some (p ∷ ps))

-- What a loop over the iterator does with an item and with the end. `more` is the loop from the
-- state behind the item.
abbrev pub consume : (ℕ → Option (List Placed)) → Option Placed × ℕ → Option (List Placed)
consume more (none, after) = some []
consume more (some p, after) = push_front p (more after)

-- What a loop over the iterator sees, from the state `index` on: fuel bounds its rounds.
unfoldable pub collect : ℕ → ChunkSection → ℕ → Option (List Placed)
unfolding next_block
collect zero section index = none
collect (suc fuel) section index =
    and_then (next_block section index) (consume (collect fuel section))

pub and_then-some {ℓ} : {A : Type ℓ} (o : Option A) → and_then o (λ a. some a) ≡ o
and_then-some none = refl
and_then-some (some a) = refl

-- How an item of the iterator stands to the cells that are left, of which there are `count`.
pub data Next (section : ChunkSection) (count : ℕ)
    : Option (Option Placed × ℕ) → Option (List Placed) → Type 0 where
  stuck : Next section count none none
  ended : (after : ℕ) → Next section count (some (none, after)) (some [])
  found :
      (p : Placed) (after left : ℕ)
      → after + left ≡ blocks_per_section
      → left < count
      → Next section count (some (some p, after)) (push_front p (non_air section left after))

Next-more :
    (section : ChunkSection) (count : ℕ) (o : Option (Option Placed × ℕ))
    (ps : Option (List Placed))
    → Next section count o ps
    → Next section (suc count) o ps
Next-more section count o ps stuck = stuck
Next-more section count o ps (ended after) = ended after
Next-more section count o ps (found p after left e h) = found p after left e (omega arith)

next_from-Next :
    (section : ChunkSection) (count index : ℕ)
    → index + count ≡ blocks_per_section
    → Next section count (next_from section count index) (non_air section count index)
unfolding next_from non_air cell_at
next_from-Next section zero index e = ended index
next_from-Next section (suc count) index e =
    let x : bit_and index 15 ≡ index % 16 = low_bits 4 index in
    let z : bit_and (index / 16) 15 ≡ index / 16 % 16 = low_bits 4 (index / 16) in
    let y : bit_and (index / 256) 15 ≡ index / 256 % 16 = low_bits 4 (index / 256) in
    elim (Option-cases (get_block section (index % 16) (index / 256 % 16) (index / 16 % 16))) [
      | inl none_there ↦ rw (x, y, z, none_there) stuck
      | inr (block, there) ↦ elim (Bool-cases (same_text block.name air)) [
        | inl is_air ↦
            let skipped =
              Next-more section count _ _
                (next_from-Next section count (suc index) (omega arith)) in
            rw (x, y, z, there, is_air)
              (subst (Next section (suc count) (next_from section count (suc index)))
                (sym (and_then-some (non_air section count (suc index)))) skipped)
        | inr other ↦
            rw (x, y, z, there, other) (found _ (suc index) count (omega arith) (omega arith))
      ]
    ]

pub next_block-Next :
    (section : ChunkSection) (count index : ℕ)
    → index + count ≡ blocks_per_section
    → Next section count (next_block section index) (non_air section count index)
unfolding next_block
next_block-Next section count index e =
    let left : blocks_per_section - index ≡ count = omega arith in
    rw left (next_from-Next section count index e)

collect-Next :
    (section : ChunkSection) (count fuel : ℕ) (o : Option (Option Placed × ℕ))
    (ps : Option (List Placed))
    → ((left index : ℕ)
        → index + left ≡ blocks_per_section
        → left < count
        → collect fuel section index ≡ non_air section left index)
    → Next section count o ps
    → and_then o (consume (collect fuel section)) ≡ ps
collect-Next section count fuel o ps ih stuck = refl
collect-Next section count fuel o ps ih (ended after) = refl
collect-Next section count fuel o ps ih (found p after left e h) =
    ap (push_front p) (ih left after e h)

collect-non_air :
    (fuel : ℕ) (section : ChunkSection) (count index : ℕ)
    → index + count ≡ blocks_per_section
    → count < fuel
    → collect fuel section index ≡ non_air section count index
unfolding collect
collect-non_air zero section count index e h = absurd (omega arith)
collect-non_air (suc fuel) section count index e h =
    collect-Next section count fuel _ _
      (λ left after e' h'. collect-non_air fuel section left after e' (omega arith))
      (next_block-Next section count index e)

no_palette-block :
    (section : ChunkSection) (x y z : ℕ)
    → section.palette ≡ []
    → get_block section x y z ≡ some no_block
unfolding get_block palette_index
no_palette-block section x y z e =
    let few : (section.bits_per_block == 0 || leb (length section.palette) 1) ≡ true =
      rw e (or_true (section.bits_per_block == 0)) in
    rw (few, e) refl
  where
    or_true : (b : Bool) → (b || true) ≡ true
    or_true true = refl
    or_true false = refl

-- In a section without a palette, every cell counts as one that is not air.
pub no_palette-non_air :
    (section : ChunkSection) (count index : ℕ)
    → section.palette ≡ []
    → (ps : List Placed) × (non_air section count index ≡ some ps) × (length ps ≡ count)
unfolding non_air cell_at
no_palette-non_air section zero index e = ([], refl, refl)
no_palette-non_air section (suc count) index e =
    let (ps, all, n) = no_palette-non_air section count (suc index) e in
    let here = no_palette-block section (index % 16) (index / 256 % 16) (index / 16 % 16) e in
    let cell : Placed = record {
      x = index % 16;
      y = index / 256 % 16;
      z = index / 16 % 16;
      state = no_block;
    } in
    (cell ∷ ps, rw (here, all) refl, ap suc n)

-- A loop over `iter_non_air` ends after at most 4096 items, and sees, in the order y, z, x, every
-- cell of the section whose block is not named minecraft:air, each once. Among these are the cells
-- with the nameless block, which stands for air where the palette lacks an index. It panics exactly
-- where the lookup of one of the cells does.
pub iter_non_air-non_air :
    (section : ChunkSection) → collect 4097 section 0 ≡ non_air section blocks_per_section 0
iter_non_air-non_air section =
    collect-non_air 4097 section blocks_per_section 0 (omega arith) (omega arith)
