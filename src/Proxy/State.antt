-- ===== src/Proxy/State.antt =====
-- crates/mc-proxy/src/server_state.rs and player.rs. A position is a pair of i32 patterns, the hash
-- set of loaded chunks is the list of its elements, and the clock behind `start` is left out.
pub mod Chunks
use pico_server_rs.Base.{
  ℕ, zero, suc, ◌+◌, ◌-◌, ◌%◌, ◌^◌, List, [], ◌∷◌, ◌++◌, Bool, true, false, ◌&&◌, ◌||◌, Option,
  none, some, ◌==◌, if◌then◌else◌, replicate, map,
}
use pico_server_rs.Base.Words.{Bytes, add_i32, sub_i32}
use mathlib.Core.Bool.{not}

-- What the server uses of f64. There are no floats here: the type and its operations are given.
pub record Floats : Type 1 where
  pub F64 : Type 0
  pub from_bits : ℕ → F64
  pub to_bits : F64 → ℕ
  pub from_i32 : ℕ → F64
  pub add : F64 → F64 → F64
  pub sub : F64 → F64 → F64
  pub mul : F64 → F64 → F64
  pub div : F64 → F64 → F64
  pub floor : F64 → F64
  pub as_i32 : F64 → ℕ
  pub lt : F64 → F64 → Bool
  pub half : F64

abbrev pub Position : Type 0
Position = ℕ × ℕ

abbrev pub same_position : Position → Position → Bool
same_position (x, z) (x', z') = (x == x') && (z == z')

-- `HashSet::contains` and `HashSet::insert`.
unfoldable pub contains : Position → List Position → Bool
contains c [] = false
contains c (d ∷ ds) = same_position c d || contains c ds

unfoldable pub insert : Position → List Position → List Position
unfolding contains
insert c ds = if contains c ds then ds else c ∷ ds

-- An item stack, with the pattern of its i32 count.
pub record ItemStack : Type 0 where
  pub item_id : ℕ
  pub count : ℕ

abbrev pub view_radius : ℕ
view_radius = 4

abbrev pub inventory_size : ℕ
inventory_size = 46

-- `for d in -VIEW_RADIUS..=VIEW_RADIUS`, as the offsets that are added to an i32.
abbrev pub offsets_from : ℕ → ℕ → List ℕ
offsets_from zero d = []
offsets_from (suc n) d = d ∷ offsets_from n (add_i32 d 1)

abbrev pub offsets : List ℕ
offsets = offsets_from 9 (sub_i32 0 view_radius)

abbrev pub row : Position → ℕ → List ℕ → List Position
row (cx, cz) dx [] = []
row (cx, cz) dx (dz ∷ dzs) = (add_i32 cx dx, add_i32 cz dz) ∷ row (cx, cz) dx dzs

abbrev pub rows : Position → List ℕ → List ℕ → List Position
rows c [] dzs = []
rows c (dx ∷ dxs) dzs = row c dx dzs ++ rows c dxs dzs

-- The positions that are not loaded yet.
unfoldable pub not_loaded : List Position → List Position → List Position
unfolding contains
not_loaded loaded [] = []
not_loaded loaded (c ∷ cs) =
    let rest = not_loaded loaded cs in if contains c loaded then rest else c ∷ rest

-- `insert` of every chunk.
unfoldable pub load_all : List Position → List Position → List Position
unfolding insert
load_all [] loaded = loaded
load_all (c ∷ cs) loaded = load_all cs (insert c loaded)

module _ (floats : Floats) where
  open floats use {F64, from_i32, div, floor, as_i32}

  pub record Player : Type 0 where
    pub entity_id : ℕ
    pub x : F64
    pub y : F64
    pub z : F64
    pub yaw : ℕ
    pub pitch : ℕ
    pub on_ground : Bool

  -- -59 as an i32.
  abbrev pub default_player : Player
  default_player = record {
    entity_id = 1352;
    x = from_i32 0;
    y = from_i32 (2 ^ 32 - 59);
    z = from_i32 0;
    yaw = 0;
    pitch = 0;
    on_ground = false;
  }

  pub record ItemEntity : Type 0 where
    pub entity_id : ℕ
    pub item_id : ℕ
    pub count : ℕ
    pub x : F64
    pub y : F64
    pub z : F64

  pub record ServerState : Type 0 where
    pub player : Player
    pub player_uuid : ℕ
    pub tick_count : ℕ
    pub teleport_id : ℕ
    pub keepalive_id : ℕ
    pub loaded_chunks : List Position
    pub last_chunk : Position
    pub pending_block_updates : List (ℕ × ℕ)
    pub pending_spawns : List (ℕ × Bytes)
    pub next_entity_id : ℕ
    pub item_entities : List ItemEntity
    pub inventory : List (Option ItemStack)
    pub container_state_id : ℕ
    pub held_slot : ℕ

  -- `(x / 16.0).floor() as i32`, for both coordinates.
  abbrev pub chunk_of : Player → Position
  chunk_of p = (as_i32 (floor (div p.x (from_i32 16))), as_i32 (floor (div p.z (from_i32 16))))

  -- `ServerState::new`.
  abbrev pub new_state : ℕ → ServerState
  new_state uuid = record {
    player = default_player;
    player_uuid = uuid;
    tick_count = 0;
    teleport_id = 0;
    keepalive_id = 0;
    loaded_chunks = [];
    last_chunk = chunk_of default_player;
    pending_block_updates = [];
    pending_spawns = [];
    next_entity_id = 1000;
    item_entities = [];
    inventory = replicate inventory_size none;
    container_state_id = 0;
    held_slot = 0;
  }

  unfoldable pub next_teleport_id : ServerState → ServerState × ℕ
  next_teleport_id s = let id = add_i32 s.teleport_id 1 in (record s { teleport_id = id }, id)

  unfoldable pub next_keepalive_id : ServerState → ServerState × ℕ
  next_keepalive_id s = let id = add_i32 s.keepalive_id 1 in (record s { keepalive_id = id }, id)

  unfoldable pub advance_tick : ServerState → ServerState
  advance_tick s = record s { tick_count = (s.tick_count + 1) % 2 ^ 64 }

  unfoldable pub player_chunk : ServerState → Position
  player_chunk s = chunk_of s.player

  unfoldable pub chunk_changed : ServerState → Bool
  unfolding player_chunk
  chunk_changed s = not (same_position (player_chunk s) s.last_chunk)

  unfoldable pub visible_chunks : ServerState → List Position
  unfolding player_chunk
  visible_chunks s = rows (player_chunk s) offsets offsets

  unfoldable pub new_visible_chunks : ServerState → List Position
  unfolding visible_chunks not_loaded
  new_visible_chunks s = not_loaded s.loaded_chunks (visible_chunks s)

  unfoldable pub mark_chunks_loaded : List Position → ServerState → ServerState
  unfolding load_all player_chunk
  mark_chunks_loaded chunks s = record s {
    loaded_chunks = load_all chunks s.loaded_chunks;
    last_chunk = player_chunk s;
  }
