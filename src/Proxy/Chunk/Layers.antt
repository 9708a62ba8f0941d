-- ===== src/Proxy/Chunk/Layers.antt =====
-- The layers that `parse_chunk_sections` of crates/mc-proxy/src/chunk.rs finds.
use pico_server_rs.Base.{
  ℕ, zero, suc, ◌+◌, ◌-◌, ◌*◌, ◌%◌, ◌^◌, ◌≤◌, ◌≡◌, refl, List, [], ◌∷◌, ◌++◌, Bool, true, false,
  Option, none, some, ◌==◌, ltb, if◌then◌else◌, length, All, Bool-cases, inl, inr, arith,
}
use mathlib.Core.Path.{subst}
use pico_server_rs.Base.Words.{Bytes, add_i32}
use pico_server_rs.Proxy.Chunk.Sections.{
  Found, found, nothing, panics, ◌>>=◌, layers_from, unless_empty, non_zero, layers, go_on,
  unless_none, read_palette, skip_words, sections, parse_chunk_sections,
  parse_template_block_palette,
}

-- The height of a layer above the lowest one, which lies at -64.
abbrev pub above : ℕ → ℕ
above y = (y + 64) % 2 ^ 32

-- A palette with blocks in it, and without air.
pub record IsSolid (palette : List ℕ) : Type 0 where
  pub some_block : 1 ≤ length palette
  pub no_air : All (λ id. (id == 0) ≡ false) palette

-- Layers from the height `lo` on, each above the one before it, up to below the height `hi`.
pub Stacked : ℕ → ℕ → List (ℕ × List ℕ) → Type 0
Stacked lo hi [] = lo ≤ hi
Stacked lo hi ((y, palette) ∷ rest) =
    (lo ≤ above y) × IsSolid palette × Stacked (above y + 1) hi rest

Stacked-lower :
    (lo lo' hi : ℕ) (ls : List (ℕ × List ℕ)) → lo ≤ lo' → Stacked lo' hi ls → Stacked lo hi ls
unfolding Stacked
Stacked-lower lo lo' hi [] h k = omega arith
Stacked-lower lo lo' hi ((y, palette) ∷ rest) h (low, solid, k) = (omega arith, solid, k)

Stacked-append :
    (lo mid hi : ℕ) (xs ys : List (ℕ × List ℕ))
    → Stacked lo mid xs
    → Stacked mid hi ys
    → Stacked lo hi (xs ++ ys)
unfolding Stacked
Stacked-append lo mid hi [] ys h k = Stacked-lower lo mid hi ys h k
Stacked-append lo mid hi ((y, palette) ∷ rest) ys (low, solid, h) k =
    (low, solid, Stacked-append (above y + 1) mid hi rest ys h k)

layers_from-Stacked :
    (n y hi : ℕ) (palette : List ℕ)
    → IsSolid palette
    → above y + n ≤ hi
    → hi ≤ 384
    → Stacked (above y) hi (layers_from n y palette)
unfolding Stacked
layers_from-Stacked zero y hi palette solid h top = omega arith
layers_from-Stacked (suc n) y hi palette solid h top =
    let next : above (add_i32 y 1) ≡ above y + 1 = omega arith in
    (
      omega arith,
      solid,
      subst (λ lo. Stacked lo hi (layers_from n (add_i32 y 1) palette)) next
          (layers_from-Stacked n (add_i32 y 1) hi palette solid (omega arith) top),
    )

non_zero-no_air : (ids : List ℕ) → All (λ id. (id == 0) ≡ false) (non_zero ids)
non_zero-no_air [] = tt
non_zero-no_air (id ∷ ids) = elim (Bool-cases (id == 0)) [
  | inl air ↦ rw air (non_zero-no_air ids)
  | inr block ↦ rw block (block, non_zero-no_air ids)
]

unless_empty-Stacked :
    (lo y : ℕ) (ids : List ℕ)
    → All (λ id. (id == 0) ≡ false) ids
    → above y ≡ lo
    → lo + 16 ≤ 384
    → Stacked lo (lo + 16) (unless_empty y ids)
unfolding Stacked
unless_empty-Stacked lo y [] h e top = omega arith
unless_empty-Stacked lo y (id ∷ ids) h e top =
    subst (λ from. Stacked from (lo + 16) (layers_from 16 y (id ∷ ids))) e
      (layers_from-Stacked 16 y (lo + 16) (id ∷ ids) record { some_block = omega arith; no_air = h }
        (omega arith) top)

-- The number of a section, counted from the lowest.
abbrev section_of : ℕ → ℕ
section_of section_y = (section_y + 4) % 2 ^ 32

layers-Stacked :
    (count section_y : ℕ) (palette : List ℕ)
    → section_of section_y + 1 ≤ 24
    → Stacked
        (section_of section_y * 16)
        (section_of section_y * 16 + 16)
        (layers count section_y palette)
unfolding layers Stacked
layers-Stacked count section_y palette h = elim (Bool-cases (count == 0)) [
  | inl empty ↦ rw empty (omega arith)
  | inr filled ↦ rw filled (
      unless_empty-Stacked (section_of section_y * 16) (section_y * 16 % 2 ^ 32) (non_zero palette)
        (non_zero-no_air palette) (omega arith) (omega arith))
]

-- A result with the property, or none.
abbrev When {ℓ} : {A : Type ℓ} → (A → Type 0) → Found A → Type 0
When P (found a) = P a
When P nothing = Unit {0}
When P panics = Unit {0}

When-then {ℓ κ} :
    {A : Type ℓ} {B : Type κ} (P : B → Type 0) (r : Found A) (f : A → Found B)
    → ((a : A) → When P (f a))
    → When P (r >>= f)
When-then P (found a) f h = h a
When-then P nothing f h = tt
When-then P panics f h = tt

When-map {ℓ κ} :
    {A : Type ℓ} {B : Type κ} (P : A → Type 0) (Q : B → Type 0) (r : Found A) (f : A → Found B)
    → When P r
    → ((a : A) → P a → When Q (f a))
    → When Q (r >>= f)
When-map P Q (found a) f k h = h a k
When-map P Q nothing f k h = tt
When-map P Q panics f k h = tt

When-if {ℓ} :
    {A : Type ℓ} (P : A → Type 0) (b : Bool) (r r' : Found A)
    → When P r
    → When P r'
    → When P (if b then r else r')
When-if P true r r' k k' = k
When-if P false r r' k k' = k'

module _ (content : Bytes) where
  go_on-Stacked :
      (lo mid : ℕ) (more : ℕ → Found (List (ℕ × List ℕ))) (these : List (ℕ × List ℕ))
      (end : Option ℕ)
      → lo ≤ 384
      → Stacked lo mid these
      → ((pos : ℕ) → When (Stacked mid 384) (more pos))
      → When (Stacked lo 384) (go_on more these end)
  unfolding Stacked
  go_on-Stacked lo mid more these none low h k = low
  go_on-Stacked lo mid more these (some next) low h k =
      When-map (Stacked mid 384) (Stacked lo 384) (more next) _ (k next)
        (λ rest k'. Stacked-append lo mid 384 these rest h k')

  sections-Stacked :
      (left section_y pos : ℕ)
      → section_of section_y + left ≡ 24
      → When (Stacked (section_of section_y * 16) 384) (sections content left section_y pos)
  unfolding sections Stacked
  sections-Stacked zero section_y pos h = omega arith
  sections-Stacked (suc left) section_y pos h =
      let k = section_of section_y in
      let next : section_of (add_i32 section_y 1) ≡ k + 1 = omega arith in
      let above_it : (at : ℕ)
          → When (Stacked (k * 16 + 16) 384) (sections content left (add_i32 section_y 1) at) =
        λ at.
          subst (λ lo. When (Stacked lo 384) (sections content left (add_i32 section_y 1) at))
            (omega arith) (sections-Stacked left (add_i32 section_y 1) at (omega arith)) in
      When-if (Stacked (k * 16) 384) (ltb (length content) (pos + 3)) _ _ (omega arith) (
        When-then (Stacked (k * 16) 384) (read_palette content _ (pos + 3)) _ (λ (palette, behind).
          When-then (Stacked (k * 16) 384) (skip_words content _ behind) _ (λ end.
            go_on-Stacked (k * 16) (k * 16 + 16) _ _ end (omega arith)
              (layers-Stacked _ section_y palette (omega arith)) above_it)))

  -- Some layer, and all of them stacked in the height of a world.
  abbrev pub Parsed : List (ℕ × List ℕ) → Type 0
  Parsed ls = (1 ≤ length ls) × Stacked 0 384 ls

  unless_none-Parsed :
      (ls : List (ℕ × List ℕ)) → Stacked 0 384 ls → When Parsed (unless_none content ls)
  unless_none-Parsed [] k = tt
  unless_none-Parsed (layer ∷ rest) k = (omega arith, k)

  parse-When : When Parsed (parse_chunk_sections content)
  unfolding parse_chunk_sections
  parse-When = When-if Parsed (ltb (length content) 8) _ _ tt (
      When-if Parsed (ltb (length content) 908) _ _ tt (
        When-map (Stacked 0 384) Parsed (sections content 24 (2 ^ 32 - 4) _) (unless_none content)
          (sections-Stacked 24 (2 ^ 32 - 4) _ refl) (λ ls k. unless_none-Parsed ls k)))

  -- Where parse_chunk_sections finds layers, there is one at least, and they lie between -64 and 319,
  -- each above the one before it, so filling the map keeps all of them; and every layer has a palette
  -- with some block and no air.
  pub parse_chunk_sections-Stacked :
      (ls : List (ℕ × List ℕ))
      → parse_chunk_sections content ≡ found ls
      → (1 ≤ length ls) × Stacked 0 384 ls × (parse_template_block_palette content ≡ found ls)
  unfolding parse_template_block_palette
  parse_chunk_sections-Stacked ls e =
      let (some_layer, stacked) = subst (When Parsed) e parse-When in
      (some_layer, stacked, rw e refl)
