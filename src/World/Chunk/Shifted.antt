-- ===== src/World/Chunk/Shifted.antt =====
-- What a loop over `iter_blocks` of crates/mc-world/src/chunk.rs comes to, cell by cell.
use pico_server_rs.Base.{
  ℕ, zero, suc, ◌+◌, ◌-◌, ◌*◌, ◌%◌, ◌^◌, ◌≡◌, refl, ap, ◌∙◌, List, [], ◌∷◌, ◌++◌, Option, none,
  some, ltb, if◌then◌else◌, get_elem?, and_then, arith,
}
use pico_server_rs.World.Section.{ChunkSection, Placed, blocks_per_section}
use pico_server_rs.World.Section.Iterate.{non_air, push_front}
use pico_server_rs.World.Chunk.{Chunk, WorldBlock, ChunkBlockIter, place, next_world_block}

-- What a loop over the iterator does with an item and with the end.
abbrev pub push_block : WorldBlock → Option (List WorldBlock) → Option (List WorldBlock)
push_block b rest = and_then rest (λ bs. some (b ∷ bs))

abbrev pub consume :
    (ChunkBlockIter → Option (List WorldBlock))
    → Option WorldBlock × ChunkBlockIter
    → Option (List WorldBlock)
consume more (none, it) = some []
consume more (some b, it) = push_block b (more it)

-- What a loop over the iterator sees: fuel bounds its rounds.
unfoldable pub collect_blocks : ℕ → Chunk → ChunkBlockIter → Option (List WorldBlock)
unfolding next_world_block
collect_blocks zero chunk it = none
collect_blocks (suc fuel) chunk it =
    and_then (next_world_block chunk it) (consume (collect_blocks fuel chunk))

-- A cell in the world, in a section with the number `y`, which is an i8.
abbrev pub in_world : Chunk → ℕ → Placed → WorldBlock
in_world chunk y p = record {
  world_x = (chunk.x * 16 + p.x) % 2 ^ 32;
  world_y = (y * 16 + p.y + (if ltb y 128 then 0 else 2 ^ 32 - 2 ^ 12)) % 2 ^ 32;
  world_z = (chunk.z * 16 + p.z) % 2 ^ 32;
  state = p.state;
}

module _ (chunk : Chunk) where
  -- A cell of a section in front of the sections `rest`, at the height that the first of them has.
  abbrev pub shift : List ChunkSection → Placed → Option WorldBlock
  shift [] p = none
  shift (t ∷ rest) p = some (in_world chunk t.y p)

  abbrev pub shift_all : List ChunkSection → List Placed → Option (List WorldBlock)
  shift_all rest [] = some []
  shift_all rest (p ∷ ps) = and_then (shift rest p) (λ b. push_block b (shift_all rest ps))

  -- One list of blocks behind the other.
  abbrev pub join : Option (List WorldBlock) → Option (List WorldBlock) → Option (List WorldBlock)
  join these more = and_then these (λ bs. and_then more (λ cs. some (bs ++ cs)))

  -- The cells that are not named air, section by section, each at the height of the section behind
  -- its own; a panic where there is none behind it.
  unfoldable pub shifted : List ChunkSection → Option (List WorldBlock)
  unfolding non_air
  shifted [] = some []
  shifted (s ∷ rest) =
      join (and_then (non_air s blocks_per_section 0) (shift_all rest)) (shifted rest)

  -- What is left of a section and of those behind it.
  abbrev pub left_of : Option (List Placed) → List ChunkSection → Option (List WorldBlock)
  left_of ps rest = join (and_then ps (shift_all rest)) (shifted rest)

  -- The sections from the number i on.
  abbrev pub From : ℕ → List ChunkSection → Type 0
  From i rest = (k : ℕ) → get_elem? chunk.sections (i + k) ≡ get_elem? rest k

  pub From-next :
      (i : ℕ) (t : ChunkSection) (rest : List ChunkSection) → From i (t ∷ rest) → From (suc i) rest
  From-next i t rest h k = ap (get_elem? chunk.sections) (omega arith) ∙ h (suc k)

  pub From-head :
      (i : ℕ) (rest : List ChunkSection)
      → From i rest
      → get_elem? chunk.sections i ≡ get_elem? rest 0
  From-head i rest h = ap (get_elem? chunk.sections) (omega arith) ∙ h 0

  pub place-shift :
      (i : ℕ) (rest : List ChunkSection) (p : Placed) → From i rest → place chunk i p ≡ shift rest p
  unfolding place
  place-shift i [] p h = rw (From-head i [] h) refl
  place-shift i (t ∷ rest) p h =
      let x : (chunk.x * 16 % 2 ^ 32 + p.x) % 2 ^ 32 ≡ (chunk.x * 16 + p.x) % 2 ^ 32 =
        omega arith in
      let z : (chunk.z * 16 % 2 ^ 32 + p.z) % 2 ^ 32 ≡ (chunk.z * 16 + p.z) % 2 ^ 32 =
        omega arith in
      let y : ((if ltb t.y 128 then t.y else t.y + (2 ^ 32 - 2 ^ 8)) * 16 % 2 ^ 32 + p.y) % 2 ^ 32
          ≡ (t.y * 16 + p.y + (if ltb t.y 128 then 0 else 2 ^ 32 - 2 ^ 12)) % 2 ^ 32 =
        ground arith in
      rw (From-head i (t ∷ rest) h, x, y, z) refl

  pub shifted-nil : shifted [] ≡ some []
  unfolding shifted
  shifted-nil = refl

  pub shifted-cons :
      (s : ChunkSection) (rest : List ChunkSection)
      → shifted (s ∷ rest) ≡ left_of (non_air s blocks_per_section 0) rest
  unfolding shifted
  shifted-cons s rest = refl

  -- An item in front.
  pub push-left_of :
      (p : Placed) (ps : Option (List Placed)) (t : ChunkSection) (rest : List ChunkSection)
      → push_block (in_world chunk t.y p) (left_of ps (t ∷ rest))
        ≡ left_of (push_front p ps) (t ∷ rest)
  push-left_of p none t rest = refl
  push-left_of p (some ps) t rest =
      push-join (in_world chunk t.y p) (shift_all (t ∷ rest) ps) (shifted (t ∷ rest))
    where
      push-join :
          (b : WorldBlock) (these more : Option (List WorldBlock))
          → push_block b (join these more) ≡ join (push_block b these) more
      push-join b none more = refl
      push-join b (some bs) none = refl
      push-join b (some bs) (some cs) = refl

  -- Where nothing is behind, an item is a panic.
  pub left_of-last : (p : Placed) (ps : Option (List Placed)) → left_of (push_front p ps) [] ≡ none
  left_of-last p none = refl
  left_of-last p (some ps) = refl
