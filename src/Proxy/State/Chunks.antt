-- ===== src/Proxy/State/Chunks.antt =====
-- Which chunks are sent as the player moves.
use pico_server_rs.Base.{
  ◌≡◌, refl, ap, List, [], ◌∷◌, Bool, true, false, ◌||◌, Bool-cases, inl, inr, All, arith,
}
use pico_server_rs.Proxy.State.{
  Floats, Position, same_position, contains, insert, ServerState, player_chunk, chunk_changed,
  visible_chunks, not_loaded, new_visible_chunks, load_all, mark_chunks_loaded,
}
use mathlib.Core.Bool.{not}

abbrev Loaded : List Position → Position → Type 0
Loaded loaded c = contains c loaded ≡ true

pub same_position_refl : (c : Position) → same_position c c ≡ true
same_position_refl (x, z) = ground arith

contains-insert : (c : Position) (ds : List Position) → contains c (insert c ds) ≡ true
unfolding contains insert
contains-insert c ds = elim (Bool-cases (contains c ds)) [
  | inl t ↦ rw (t, t) refl
  | inr f ↦ rw (f, same_position_refl c) refl
]

or_true : (b : Bool) → (b || true) ≡ true
or_true true = refl
or_true false = refl

contains-insert_other :
    (c d : Position) (ds : List Position) → contains c ds ≡ true → contains c (insert d ds) ≡ true
unfolding contains insert
contains-insert_other c d ds h = elim (Bool-cases (contains d ds)) [
  | inl t ↦ rw (t, h) refl
  | inr f ↦ rw (f, h, or_true (same_position c d)) refl
]

load_all-keeps :
    (cs : List Position) (c : Position) (loaded : List Position)
    → contains c loaded ≡ true
    → contains c (load_all cs loaded) ≡ true
unfolding load_all
load_all-keeps [] c loaded h = h
load_all-keeps (d ∷ ds) c loaded h =
    load_all-keeps ds c (insert d loaded) (contains-insert_other c d loaded h)

pub load_all-loads : (cs loaded : List Position) → All (Loaded (load_all cs loaded)) cs
unfolding load_all
load_all-loads [] loaded = tt
load_all-loads (c ∷ cs) loaded = (
  load_all-keeps cs c (insert c loaded) (contains-insert c loaded),
  load_all-loads cs (insert c loaded),
)

not_loaded-covers :
    (cs loaded more : List Position)
    → ((c : Position) → contains c loaded ≡ true → contains c more ≡ true)
    → All (Loaded more) (not_loaded loaded cs)
    → All (Loaded more) cs
unfolding not_loaded
not_loaded-covers [] loaded more keep h = tt
not_loaded-covers (c ∷ cs) loaded more keep h = elim (Bool-cases (contains c loaded)) [
  | inl t ↦ (keep c t, not_loaded-covers cs loaded more keep (rw t at h))
  | inr f ↦
      let (k, ks) : Loaded more c × All (Loaded more) (not_loaded loaded cs) = rw f at h in
      (k, not_loaded-covers cs loaded more keep ks)
]

not_loaded-none : (cs loaded : List Position) → All (Loaded loaded) cs → not_loaded loaded cs ≡ []
unfolding not_loaded
not_loaded-none [] loaded h = refl
not_loaded-none (c ∷ cs) loaded (h, hs) = rw h (not_loaded-none cs loaded hs)

not_loaded-new :
    (cs loaded : List Position) → All (λ c. contains c loaded ≡ false) (not_loaded loaded cs)
unfolding not_loaded
not_loaded-new [] loaded = tt
not_loaded-new (c ∷ cs) loaded = elim (Bool-cases (contains c loaded)) [
  | inl t ↦ rw t (not_loaded-new cs loaded)
  | inr f ↦ rw f (f, not_loaded-new cs loaded)
]

module _ (floats : Floats) where
  -- None of the chunks that are due is loaded. After they are sent and marked, every visible chunk is
  -- loaded, what was loaded still is, no chunk is due, and the player has not changed chunk.
  pub mark_chunks_loaded-settles :
      (s : ServerState floats)
      → let due = new_visible_chunks floats s in
        let after = mark_chunks_loaded floats due s in
        All (λ c. contains c s.loaded_chunks ≡ false) due
        × All (λ c. contains c after.loaded_chunks ≡ true) (visible_chunks floats after)
        × ((c : Position)
            → contains c s.loaded_chunks ≡ true
            → contains c after.loaded_chunks ≡ true)
        × (new_visible_chunks floats after ≡ [])
        × (chunk_changed floats after ≡ false)
  unfolding new_visible_chunks mark_chunks_loaded chunk_changed visible_chunks player_chunk
  mark_chunks_loaded-settles s =
      let due = new_visible_chunks floats s in
      let loaded = s.loaded_chunks in
      let keep = λ (c : Position). load_all-keeps due c loaded in
      let all =
        not_loaded-covers (visible_chunks floats s) loaded (load_all due loaded) keep
          (load_all-loads due loaded) in
      (
        not_loaded-new (visible_chunks floats s) loaded,
        all,
        keep,
        not_loaded-none (visible_chunks floats s) (load_all due loaded) all,
        ap not (same_position_refl (player_chunk floats s)),
      )
