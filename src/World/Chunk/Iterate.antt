-- ===== src/World/Chunk/Iterate.antt =====
-- `iter_blocks` and `ChunkBlockIter::next` of crates/mc-world/src/chunk.rs, run to the end.
use pico_server_rs.Base.{
  ℕ, zero, suc, ◌+◌, ◌-◌, ◌*◌, ◌<◌, ◌≤◌, ◌≡◌, refl, sym, ap, ◌∙◌, List, [], ◌∷◌, Option, none, some,
  length, get_elem?, and_then, arith,
}
use pico_server_rs.World.Section.{ChunkSection, Placed, blocks_per_section, next_block}
use pico_server_rs.World.Section.Iterate.{
  non_air, push_front, Next, stuck, ended, found, next_block-Next, and_then-some,
}
use pico_server_rs.World.Chunk.{
  Chunk, ChunkBlockIter, place, keep, enter, round, next_from, iter_blocks, next_world_block,
}
use pico_server_rs.World.Chunk.Shifted.{
  collect_blocks, consume, in_world, push_block, left_of, From, shifted, From-next, From-head,
  place-shift, shifted-nil, shifted-cons, push-left_of, left_of-last,
}

module _ (chunk : Chunk) where
  module _ (fuel : ℕ)
      (ih : (s : ChunkSection) (rest : List ChunkSection) (i index count : ℕ)
        → From chunk i rest
        → i + length rest ≡ length chunk.sections
        → index + count ≡ blocks_per_section
        → count + blocks_per_section * length rest < fuel
        → collect_blocks fuel chunk (record { section_idx = i; block_iter = some (s, index) })
          ≡ left_of chunk (non_air s count index) rest) where
    -- A round that gives an item.
    item-left_of :
        (s : ChunkSection) (rest : List ChunkSection) (i after left : ℕ) (p : Placed)
        → From chunk i rest
        → i + length rest ≡ length chunk.sections
        → after + left ≡ blocks_per_section
        → left + blocks_per_section * length rest < fuel
        → and_then
            (and_then
              (place chunk i p)
              (λ b. some (some b, record { section_idx = i; block_iter = some (s, after) })))
            (consume (collect_blocks fuel chunk))
          ≡ left_of chunk (push_front p (non_air s left after)) rest
    item-left_of s [] i after left p from n e h =
        ap
          (λ o.
            and_then
              (and_then o
                (λ b. some (some b, record { section_idx = i; block_iter = some (s, after) })))
              (consume (collect_blocks fuel chunk)))
          (place-shift chunk i [] p from)
        ∙ sym (left_of-last chunk p (non_air s left after))
    item-left_of s (t ∷ rest) i after left p from n e h =
        ap
          (λ o.
            and_then
              (and_then o
                (λ b. some (some b, record { section_idx = i; block_iter = some (s, after) })))
              (consume (collect_blocks fuel chunk)))
          (place-shift chunk i (t ∷ rest) p from)
        ∙ ap (push_block (in_world chunk t.y p)) (ih s (t ∷ rest) i after left from n e h)
        ∙ push-left_of chunk p (non_air s left after) t rest

    -- A round on what the section iterator gives.
    round-left_of :
        (s : ChunkSection) (rest : List ChunkSection) (i count : ℕ) (o : Option (Option Placed × ℕ))
        (ps : Option (List Placed))
        → From chunk i rest
        → i + length rest ≡ length chunk.sections
        → count + blocks_per_section * length rest ≤ fuel
        → Next s count o ps
        → and_then
            (and_then (and_then o (keep s)) (round (next_from (length rest) chunk) chunk i))
            (consume (collect_blocks fuel chunk))
          ≡ left_of chunk ps rest
    unfolding round next_from
    round-left_of s rest i count o ps from n h stuck = refl
    round-left_of s rest i count o ps from n h (found p after left e lt) =
        item-left_of s rest i after left p from n e (omega arith)
    round-left_of s [] i count o ps from n h (ended after) =
        rw (From-head chunk i [] from, shifted-nil chunk) refl
    round-left_of s (t ∷ rest) i count o ps from n h (ended after) =
        ap
          (λ found.
            and_then (enter (next_from (suc (length rest)) chunk) i (some (s, after)) found)
              (consume (collect_blocks fuel chunk)))
          (From-head chunk i (t ∷ rest) from)
        ∙ round-left_of t rest (suc i) blocks_per_section (next_block t 0)
            (non_air t blocks_per_section 0) (From-next chunk i t rest from) (omega arith)
            (omega arith) (next_block-Next t blocks_per_section 0 refl)
        ∙ sym (shifted-cons chunk t rest)
        ∙ sym (and_then-some (shifted chunk (t ∷ rest)))

  collect_blocks-left_of :
      (fuel : ℕ) (s : ChunkSection) (rest : List ChunkSection) (i index count : ℕ)
      → From chunk i rest
      → i + length rest ≡ length chunk.sections
      → index + count ≡ blocks_per_section
      → count + blocks_per_section * length rest < fuel
      → collect_blocks fuel chunk (record { section_idx = i; block_iter = some (s, index) })
        ≡ left_of chunk (non_air s count index) rest
  unfolding collect_blocks next_world_block next_from
  collect_blocks-left_of zero s rest i index count from n e h = absurd (omega arith)
  collect_blocks-left_of (suc fuel) s rest i index count from n e h =
      let it : ChunkBlockIter = record { section_idx = i; block_iter = some (s, index) } in
      let rounds : length chunk.sections - i + 1 ≡ suc (length rest) = omega arith in
      ap (λ k. and_then (next_from k chunk it) (consume (collect_blocks fuel chunk))) rounds
      ∙ round-left_of fuel (collect_blocks-left_of fuel) s rest i count (next_block s index)
          (non_air s count index) from n (omega arith) (next_block-Next s count index e)

  collect_blocks-sections :
      (fuel : ℕ) (sections : List ChunkSection)
      → chunk.sections ≡ sections
      → blocks_per_section * length sections < fuel
      → collect_blocks fuel chunk iter_blocks ≡ shifted chunk sections
  unfolding collect_blocks next_world_block next_from round
  collect_blocks-sections zero sections e h = absurd (omega arith)
  collect_blocks-sections (suc fuel) [] e h =
      let rounds : length chunk.sections - 0 + 1 ≡ 1 = omega (arith, ap length e) in
      let none_there : get_elem? chunk.sections 0 ≡ none = ap (λ ss. get_elem? ss 0) e in
      ap (λ k. and_then (next_from k chunk iter_blocks) (consume (collect_blocks fuel chunk)))
        rounds
      ∙ ap
          (λ found.
            and_then (enter (next_from 0 chunk) 0 none found) (consume (collect_blocks fuel chunk)))
          none_there
      ∙ sym (shifted-nil chunk)
  collect_blocks-sections (suc fuel) (s ∷ rest) e h =
      let n : length chunk.sections ≡ suc (length rest) = ap length e in
      let rounds : length chunk.sections - 0 + 1 ≡ suc (suc (length rest)) = omega (arith, n) in
      let there : get_elem? chunk.sections 0 ≡ some s = ap (λ ss. get_elem? ss 0) e in
      let from : From chunk 1 rest = λ k.
        let behind : 1 + k ≡ suc k = omega arith in
        ap (λ ss. get_elem? ss (1 + k)) e ∙ ap (get_elem? (s ∷ rest)) behind in
      ap (λ k. and_then (next_from k chunk iter_blocks) (consume (collect_blocks fuel chunk)))
        rounds
      ∙ ap
          (λ found.
            and_then (enter (next_from (suc (length rest)) chunk) 0 none found)
              (consume (collect_blocks fuel chunk)))
          there
      ∙ round-left_of fuel (collect_blocks-left_of fuel) s rest 1 blocks_per_section
          (next_block s 0) (non_air s blocks_per_section 0) from (omega (arith, n)) (omega arith)
          (next_block-Next s blocks_per_section 0 refl)
      ∙ sym (shifted-cons chunk s rest)

-- A loop over `iter_blocks` ends, after at most 4096 items for each section, and sees section by
-- section every cell whose block is not named minecraft:air, in the order y, z, x, with the x and z of
-- the chunk, but with the height that the cell would have in the section that is listed behind its
-- own. It panics exactly where the lookup of a cell does, or where the last section has such a cell.
pub collect_blocks-shifted :
    (chunk : Chunk) (fuel : ℕ)
    → blocks_per_section * length chunk.sections < fuel
    → collect_blocks fuel chunk iter_blocks ≡ shifted chunk chunk.sections
collect_blocks-shifted chunk fuel h = collect_blocks-sections chunk fuel chunk.sections refl h
