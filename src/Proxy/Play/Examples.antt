-- ===== src/Proxy/Play/Examples.antt =====
-- The theorems about the server's state and its packets at a concrete state.
use pico_server_rs.Base.{
  ℕ, ◌+◌, ◌-◌, ◌*◌, ◌/◌, ◌%◌, ◌^◌, ◌≡◌, refl, [], ◌∷◌, ◌++◌, none, some, arith, ltb, replicate,
}
use pico_server_rs.Base.Words.{of_be}
use pico_server_rs.Base.Read.{ok, panic}
use pico_server_rs.Varint.{write_var_int}
use pico_server_rs.Proxy.Follow.{follow_player}
use pico_server_rs.Proxy.Follow.Loaded.{Settled, Followed, follow_player-Followed}
use pico_server_rs.Proxy.Ids.Serverbound.{sb_use_item_on, sb_set_carried_item, sb_move_player_rot}
use pico_server_rs.Proxy.Inventory.{Slot, stow}
use pico_server_rs.Proxy.Inventory.Stow.{Stowed, stow-Stowed}
use pico_server_rs.Proxy.Pickup.{pickup_tick}
use pico_server_rs.Proxy.Pickup.Tick.{Stocked, Ticked, pickup_tick-Ticked}
use pico_server_rs.Proxy.Play.{handle_sb_packet, move_player_rot}
use pico_server_rs.Proxy.Play.Held.{set_carried_item-panic}
use pico_server_rs.Proxy.Play.Returns.{Leaves, handle_sb_packet-Leaves}
use pico_server_rs.Proxy.Play.Stocked.{handle_sb_packet-Stocked}
use pico_server_rs.Proxy.State.{
  Floats, ItemEntity, ServerState, new_state, new_visible_chunks, player_chunk, mark_chunks_loaded,
  visible_chunks, player_chunk,
}
use pico_server_rs.Proxy.State.Chunks.{mark_chunks_loaded-settles}

-- Whole numbers in place of floats.
abbrev pub whole : Floats
whole = record {
  F64 = ℕ;
  from_bits = λ v. v;
  to_bits = λ v. v % 2 ^ 64;
  from_i32 = λ v. v;
  add = λ a b. a + b;
  sub = λ a b. (a - b) + (b - a);
  mul = λ a b. a * b;
  div = λ a b. a / b;
  floor = λ a. a;
  as_i32 = λ a. a % 2 ^ 32;
  lt = ltb;
  half = 0;
}

-- One stack in the hotbar, one entity in range and one that is not.
abbrev near : ItemEntity whole
near = record { entity_id = 1000; item_id = 55; count = 1; x = 1; y = 2 ^ 32 - 59; z = 2 }

abbrev far : ItemEntity whole
far = record { entity_id = 1001; item_id = 55; count = 1; x = 100; y = 2 ^ 32 - 59; z = 2 }

abbrev stack : Slot
stack = some (record { item_id = 55; count = 63 })

abbrev world : ServerState whole
world = record (new_state whole 7) {
  inventory = stack ∷ replicate 45 none;
  item_entities = near ∷ far ∷ [];
}

world-Stocked : Stocked whole world
world-Stocked = record { slots = omega arith; size = omega arith; entities = omega arith }

stow-Stowed_example : Stowed 2 55 70 (stack ∷ none ∷ []) (stow 2 55 70 (stack ∷ none ∷ []))
stow-Stowed_example =
    stow-Stowed 2 55 70 (stack ∷ none ∷ []) (omega arith) (omega arith) (omega arith)

pickup_tick-Ticked_example : Ticked whole world (pickup_tick whole world)
pickup_tick-Ticked_example = pickup_tick-Ticked whole world world-Stocked

abbrev carrying : ServerState whole
carrying = record world { held_slot = 100 }

set_carried_item-panic_example :
    (handle_sb_packet whole 9 sb_set_carried_item (world, []) (write_var_int 100 [] ++ [])
      ≡ ok (carrying, []) [])
    × (handle_sb_packet whole 9 sb_use_item_on (carrying, []) (1 ∷ []) ≡ panic)
set_carried_item-panic_example =
    set_carried_item-panic whole 9 world [] 100 [] (1 ∷ []) (omega arith) (omega arith)

abbrev rotated : ServerState whole
rotated = record world { player = record world.player { yaw = 1; pitch = 2 } }

rotation_read :
    handle_sb_packet whole 9 sb_move_player_rot (world, []) (0 ∷ 0 ∷ 0 ∷ 1 ∷ 0 ∷ 0 ∷ 0 ∷ 2 ∷ 1 ∷ [])
    ≡ ok (rotated, []) []
unfolding handle_sb_packet move_player_rot of_be
rotation_read = refl

handle_sb_packet-Stocked_example : Stocked whole rotated
handle_sb_packet-Stocked_example =
    handle_sb_packet-Stocked whole 9 sb_move_player_rot world rotated [] []
      (0 ∷ 0 ∷ 0 ∷ 1 ∷ 0 ∷ 0 ∷ 0 ∷ 2 ∷ 1 ∷ []) [] world-Stocked rotation_read

-- The state behind the first chunks of a new player, who has then walked three chunks on.
abbrev started : ServerState whole
started =
    mark_chunks_loaded whole (new_visible_chunks whole (new_state whole 7)) (new_state whole 7)

abbrev walked : ServerState whole
walked = record started { player = record started.player { x = 48 } }

walked-Settled : Settled whole walked
unfolding mark_chunks_loaded visible_chunks player_chunk
walked-Settled = let (_, all, _, _, _) = mark_chunks_loaded-settles whole (new_state whole 7) in all

follow_player-Followed_example : Followed whole walked (follow_player whole (replicate 8 0) walked)
follow_player-Followed_example =
    follow_player-Followed whole (replicate 8 0) walked (omega arith) walked-Settled

handle_sb_packet-Leaves_example :
    Leaves 0 (handle_sb_packet whole 9 sb_use_item_on (world, []) (replicate 31 0))
handle_sb_packet-Leaves_example =
    handle_sb_packet-Leaves whole 9 sb_use_item_on world [] (replicate 31 0) (λ e. omega arith)
      (λ e. omega arith)
