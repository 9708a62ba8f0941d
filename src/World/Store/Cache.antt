-- ===== src/World/Store/Cache.antt =====
-- The cache of crates/mc-world/src/world.rs against reading each region file anew.
use pico_server_rs.Base.{
  ℕ, ◌≡◌, refl, ap, ◌∙◌, List, [], ◌∷◌, true, Option, none, some, ◌==◌, and_then, All, Bool-cases,
  Option-cases, inl, inr, ◌⊎◌, ==_iff,
}
use mathlib.Core.Path.{subst}
use mathlib.Core.Option.{none-ne-some, some-injective}
use mathlib.Core.Bool.{false≢true}
use pico_server_rs.Base.Words.{Bytes}
use pico_server_rs.World.Region.Name.{region_name}
use pico_server_rs.World.Region.{
  RegionFile, Answer, given, failed, panics, RegionError, Decoders, open_region, load_chunk,
}
use pico_server_rs.World.Chunk.{Chunk}
use pico_server_rs.World.Store.{
  World, Regions, same_key, cached, floor_32, chunk_of, chunk_in, with_opened, with_cached,
  get_chunk, new_world,
}

same_key-≡ : (j k : ℕ × ℕ) → same_key j k ≡ true → j ≡ k
same_key-≡ (a, b) (c, d) h = elim (Bool-cases (a == c)) [
  | inl first ↦
      let second : (b == d) ≡ true = rw first at h in
      ap (λ (x : ℕ). (x, b)) ((==_iff a c).0 first) ∙ ap (λ (y : ℕ). (c, y)) ((==_iff b d).0 second)
  | inr other ↦ absurd (false≢true (rw other at h))
]

module _ (files : Bytes → Option Bytes) (decoders : Decoders) where
  -- The file of a region, opened.
  abbrev opened : ℕ × ℕ → Answer RegionFile
  unfolding region_name
  opened (rx, rz) = let name = region_name rx rz in open_region name (files name)

  -- The chunk in what opening its region file returns.
  unfoldable pub chunk_from : Answer RegionFile → ℕ → ℕ → Option (Option Chunk)
  unfolding load_chunk chunk_of
  chunk_from (given region) x z = chunk_of (load_chunk decoders region x z)
  chunk_from (failed e) x z = some none
  chunk_from panics x z = none

  -- The chunk at these coordinates, without a cache.
  unfoldable pub lookup : ℕ → ℕ → Option (Option Chunk)
  unfolding chunk_from opened
  lookup x z = chunk_from (opened (floor_32 x, floor_32 z)) x z

  -- Every cached region is what its file holds.
  abbrev IsCache : Regions → Type 0
  unfolding opened
  IsCache regions = All (λ (key, region). opened key ≡ given region) regions

  -- A result of `get_chunk` that agrees with the lookup and keeps the cache right.
  abbrev Agrees : Option (Option Chunk) → Option (World × Option Chunk) → Type 0
  unfolding IsCache
  Agrees expected none = expected ≡ none
  Agrees expected (some (world, chunk)) = (expected ≡ some chunk) × IsCache world.regions

  cached-opened :
      (key : ℕ × ℕ) (regions : Regions) (region : RegionFile)
      → IsCache regions
      → cached key regions ≡ some region
      → opened key ≡ given region
  unfolding cached IsCache
  cached-opened key [] region hs e = absurd (none-ne-some region e)
  cached-opened key ((k, r) ∷ regions) region (h, hs) e = elim (Bool-cases (same_key k key)) [
    | inl same ↦
        let this : r ≡ region = some-injective r region (rw same at e) in
        subst (λ j. opened j ≡ given region) (same_key-≡ k key same) (h ∙ ap given this)
    | inr other ↦ cached-opened key regions region hs (rw other at e)
  ]

  chunk_in-Agrees :
      (world : World) (region : RegionFile) (key : ℕ × ℕ) (x z : ℕ)
      → IsCache world.regions
      → opened key ≡ given region
      → Agrees (chunk_from (opened key) x z) (chunk_in files decoders world region x z)
  unfolding chunk_from chunk_in Agrees
  chunk_in-Agrees world region key x z h e =
      elim (Option-cases (chunk_of (load_chunk decoders region x z))) [
        | inl crash ↦ rw (e, crash) refl
        | inr (chunk, found) ↦ rw (e, found) (refl, h)
      ]

  answer_cases :
      (a : Answer RegionFile)
      → (a ≡ panics) ⊎ ((r : RegionFile) × (a ≡ given r)) ⊎ ((e : RegionError) × (a ≡ failed e))
  answer_cases (given r) = inr (inl (r, refl))
  answer_cases (failed e) = inr (inr (e, refl))
  answer_cases panics = inl refl

  fresh :
      (world : World) (key : ℕ × ℕ) (x z : ℕ)
      → IsCache world.regions
      → Agrees (chunk_from (opened key) x z) (with_opened files decoders world key (opened key) x z)
  unfolding with_opened Agrees IsCache chunk_from
  fresh world key x z h = elim (answer_cases (opened key)) [
    | inl crash ↦ rw crash refl
    | inr (inl (region, e)) ↦
        let after : World = record { regions = (key, region) ∷ world.regions } in
        rw e (rw e at (chunk_in-Agrees after region key x z (e, h) e))
    | inr (inr (error, e)) ↦ rw e (refl, h)
  ]

  get_chunk-Agrees :
      (world : World) (x z : ℕ)
      → IsCache world.regions
      → Agrees (lookup x z) (get_chunk files decoders world x z)
  unfolding lookup get_chunk with_cached with_opened Agrees IsCache
  get_chunk-Agrees world x z h =
      let key : ℕ × ℕ = (floor_32 x, floor_32 z) in
      elim (Option-cases (cached key world.regions)) [
        | inr (region, e) ↦
            rw e
              (chunk_in-Agrees world region key x z h (cached-opened key world.regions region h e))
        | inl e ↦ rw e (fresh world key x z h)
      ]

  -- A sequence of calls of `get_chunk`, and the chunks that they return.
  unfoldable pub get_chunks : World → List (ℕ × ℕ) → Option (List (Option Chunk))
  unfolding get_chunk
  get_chunks world [] = some []
  get_chunks world ((x, z) ∷ queries) =
      and_then (get_chunk files decoders world x z)
        λ (after, chunk). and_then (get_chunks after queries) (λ chunks. some (chunk ∷ chunks))

  -- The same without a cache.
  unfoldable pub lookups : List (ℕ × ℕ) → Option (List (Option Chunk))
  unfolding lookup
  lookups [] = some []
  lookups ((x, z) ∷ queries) =
      and_then (lookup x z) λ chunk. and_then (lookups queries) (λ chunks. some (chunk ∷ chunks))

  agree_on :
      (expected : Option (Option Chunk)) (result : Option (World × Option Chunk))
      (queries : List (ℕ × ℕ))
      → Agrees expected result
      → ((world : World) → IsCache world.regions → get_chunks world queries ≡ lookups queries)
      → and_then result
          (λ (after, chunk). and_then (get_chunks after queries) (λ chunks. some (chunk ∷ chunks)))
        ≡ and_then expected (λ chunk. and_then (lookups queries) (λ chunks. some (chunk ∷ chunks)))
  unfolding Agrees IsCache
  agree_on expected none queries e next = rw e refl
  agree_on expected (some (after, chunk)) queries (e, h) next = rw (e, next after h) refl

  get_chunks-lookups :
      (queries : List (ℕ × ℕ)) (world : World)
      → IsCache world.regions
      → get_chunks world queries ≡ lookups queries
  unfolding get_chunks lookups
  get_chunks-lookups [] world h = refl
  get_chunks-lookups ((x, z) ∷ queries) world h =
      agree_on (lookup x z) (get_chunk files decoders world x z) queries
        (get_chunk-Agrees world x z h) (get_chunks-lookups queries)

  -- From a world just opened, every sequence of calls of `get_chunk` returns what opening the region
  -- file anew for each call would, and panics exactly where that does, as long as the files do not
  -- change.
  pub get_chunks-new_world :
      (queries : List (ℕ × ℕ)) → get_chunks new_world queries ≡ lookups queries
  unfolding IsCache
  get_chunks-new_world queries = get_chunks-lookups queries new_world tt
