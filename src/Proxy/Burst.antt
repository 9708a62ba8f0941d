-- ===== src/Proxy/Burst.antt =====
-- The first packets of the play phase: `run_play_phase` and `send_initial_packet` of
-- crates/mc-proxy/src/server.rs. The captured packets are an argument. What is sent is the list of
-- packet ids and bodies; `none` is a panic, and a failing socket is left out.
use pico_server_rs.Base.{
  ℕ, ◌-◌, ◌*◌, ◌^◌, List, [], ◌∷◌, ◌++◌, Bool, true, false, Option, none, some, ◌==◌, ◌||◌,
  if◌then◌else◌, length, and_then, bit_and, bit_or, replicate,
}
use pico_server_rs.Base.Words.{Bytes, as_i32}
use pico_server_rs.Base.Codec.{Writer, ◌▹◌, put, put_be, skip}
use pico_server_rs.Varint.{write_var_int, write_var_long}
use pico_server_rs.Proxy.Ids.Clientbound.{
  cb_login, cb_change_difficulty, cb_set_held_slot, cb_game_event, cb_player_position, cb_set_time,
  cb_ticking_state, cb_ticking_step, cb_player_abilities, cb_recipe_book_settings, cb_server_data,
  cb_player_info_update, cb_commands, cb_update_recipes, cb_recipe_book_add, cb_entity_event,
  cb_add_entity, cb_set_entity_data, cb_update_attributes, cb_update_advancements,
  cb_container_set_content, cb_set_equipment, cb_chunk_batch_start, cb_set_chunk_cache_center,
  cb_level_chunk_with_light, cb_initialize_border, cb_set_default_spawn_position, cb_set_experience,
  cb_set_health, cb_bundle,
}
use pico_server_rs.Proxy.LoginPacket.{LoginPacket, login_bytes, overworld, the_end, the_nether}
use pico_server_rs.Proxy.Pickup.{Sent}
use pico_server_rs.Proxy.State.{Floats, ServerState, next_teleport_id, visible_chunks}
use pico_server_rs.Proxy.Follow.{send_chunks, center_packet}

-- The f32 and f64 constants, as their bit patterns.
abbrev f32_20 : ℕ
f32_20 = 0x41a0_0000

abbrev f64_60_000_000 : ℕ
f64_60_000_000 = 0x418c_9c38_0000_0000

-- "RustMC Server"
abbrev server_name : Bytes
server_name = 82 ∷ 117 ∷ 115 ∷ 116 ∷ 77 ∷ 67 ∷ 32 ∷ 83 ∷ 101 ∷ 114 ∷ 118 ∷ 101 ∷ 114 ∷ []

-- `write_string` of server.rs.
abbrev pub write_text : Bytes → Writer
write_text s = write_var_int (as_i32 (length s)) ▹ put s

-- The packed position 0, -60, 0.
abbrev spawn_position : ℕ
spawn_position =
    bit_or (bit_or (bit_and 0 0x3ff_ffff * 2 ^ 38) (bit_and 0 0x3ff_ffff * 2 ^ 12))
      (bit_and (2 ^ 64 - 60) 0xfff)

-- The login packet of `run_play_phase`.
abbrev pub play_login : LoginPacket
play_login = record {
  entity_id = 1352;
  hardcore = false;
  dimensions = overworld ∷ the_end ∷ the_nether ∷ [];
  max_players = 20;
  view_distance = 10;
  sim_distance = 10;
  reduced_debug_info = false;
  enable_respawn_screen = true;
  do_limited_crafting = false;
  dimension_type = [];
  dimension_name = overworld;
  seed = 9152277222534345964;
  game_type = 0;
  previous_game_type = 127;
  is_debug = false;
  is_flat = false;
  death_location = none;
  portal_cooldown = 63;
  sea_level = 0;
  envelope_follows = false;
}

-- The packets that are not sent here: they are sent elsewhere, or not at all.
unfoldable pub is_skipped : ℕ → Bool
is_skipped pid =
    (pid == cb_commands)
    || (pid == cb_update_recipes)
    || (pid == cb_recipe_book_add)
    || (pid == cb_entity_event)
    || (pid == cb_add_entity)
    || (pid == cb_set_entity_data)
    || (pid == cb_update_attributes)
    || (pid == cb_update_advancements)
    || (pid == cb_container_set_content)
    || (pid == cb_set_equipment)
    || (pid == cb_chunk_batch_start)
    || (pid == cb_set_chunk_cache_center)
    || (pid == cb_level_chunk_with_light)

-- The packets whose body does not depend on the state.
unfoldable pub fixed_body : ℕ → Option Writer
fixed_body pid =
    if pid == cb_change_difficulty
    then some (put_be 1 1 ▹ put_be 1 0)
    else if pid == cb_set_held_slot
    then some (write_var_int 0)
    else if pid == cb_game_event
    then some (put_be 1 13 ▹ put_be 4 0)
    else if pid == cb_set_time
    then some (put_be 8 0 ▹ put_be 1 0)
    else if pid == cb_ticking_state
    then some (put_be 4 f32_20 ▹ put_be 1 0)
    else if pid == cb_ticking_step
    then some (write_var_int 0)
    else if pid == cb_player_abilities
    then some (put_be 1 4 ▹ put_be 4 0x3d4c_cccd ▹ put_be 4 0x3dcc_cccd)
    else if pid == cb_recipe_book_settings
    then some (put (replicate 8 0))
    else if pid == cb_server_data
    then some (put_be 1 8 ▹ put_be 1 0 ▹ write_text server_name ▹ put_be 1 0)
    else if pid == cb_player_info_update
    then some (put (0 ∷ 0 ∷ []))
    else if pid == cb_initialize_border
    then some (
        put_be 8 0
        ▹ put_be 8 0
        ▹ put_be 8 f64_60_000_000
        ▹ put_be 8 f64_60_000_000
        ▹ write_var_long 0
        ▹ write_var_int 29999984
        ▹ write_var_int 5
        ▹ write_var_int 300)
    else if pid == cb_set_default_spawn_position
    then some (write_text overworld ▹ put_be 8 spawn_position ▹ put_be 4 0 ▹ put (replicate 4 0))
    else if pid == cb_set_experience
    then some (put_be 4 0 ▹ write_var_int 0 ▹ write_var_int 0)
    else if pid == cb_set_health
    then some (put_be 4 f32_20 ▹ write_var_int 20 ▹ put_be 4 0x4000_0000)
    else if pid == cb_bundle
    then some skip
    else none

abbrev pub template_packet : ℕ → Option Bytes → Sent
template_packet pid none = []
template_packet pid (some body) = (pid, body) ∷ []

abbrev pub fixed_or : ℕ → Option Bytes → Option Writer → Sent
fixed_or pid template (some write) = (pid, write []) ∷ []
fixed_or pid template none = if is_skipped pid then [] else template_packet pid template

module _ (floats : Floats) where
  open floats use {F64, to_bits, from_bits}

  -- The body of the position packet, which takes the next teleport id.
  abbrev pub position_body : ℕ → ServerState floats → Writer
  position_body id s =
      write_var_int id
      ▹ put_be 8 (to_bits s.player.x)
      ▹ put_be 8 (to_bits s.player.y)
      ▹ put_be 8 (to_bits s.player.z)
      ▹ put_be 8 0
      ▹ put_be 8 0
      ▹ put_be 8 0
      ▹ put_be 4 s.player.yaw
      ▹ put_be 4 s.player.pitch
      ▹ put_be 4 0

  -- `send_initial_packet`.
  unfoldable pub send_initial_packet :
      ServerState floats → ℕ → Option Bytes → ServerState floats × Sent
  unfolding fixed_body is_skipped
  send_initial_packet s pid template =
      let (next, id) = next_teleport_id floats s in
      if pid == cb_login
      then (s, [])
      else if pid == cb_player_position
      then (next, (pid, position_body id next []) ∷ [])
      else (s, fixed_or pid template (fixed_body pid))

  -- `send_initial_packet` of each packet, in order.
  unfoldable pub send_each :
      ServerState floats → List (ℕ × Option Bytes) → ServerState floats × Sent
  unfolding send_initial_packet
  send_each s [] = (s, [])
  send_each s ((pid, template) ∷ packets) =
      let (s', sent) = send_initial_packet s pid template in
      let (s'', rest) = send_each s' packets in (s'', sent ++ rest)

  -- `write_add_entity`.
  unfoldable pub write_add_entity : ℕ → ℕ → ℕ → F64 → F64 → F64 → ℕ → ℕ → ℕ → ℕ → Bool → Bytes
  write_add_entity entity_id uuid entity_type x y z pitch yaw head_yaw content has_velocity =
      (write_var_int entity_id
          ▹ put_be 16 uuid
          ▹ write_var_int entity_type
          ▹ put_be 8 (to_bits x)
          ▹ put_be 8 (to_bits y)
          ▹ put_be 8 (to_bits z)
          ▹ put_be 1 pitch
          ▹ put_be 1 yaw
          ▹ put_be 1 head_yaw
          ▹ write_var_int content
          ▹ put_be 1 (if has_velocity then 1 else 0)
          ▹ (if has_velocity then put_be 2 0 ▹ put_be 2 0 ▹ put_be 2 0 else skip))
        []

-- The ids that are sent where there are no captured packets.
abbrev pub burst_ids : List ℕ
burst_ids =
    cb_change_difficulty ∷ cb_set_held_slot ∷ cb_game_event ∷ cb_player_position ∷ cb_set_time
    ∷ cb_ticking_state ∷ cb_ticking_step ∷ cb_player_abilities ∷ cb_recipe_book_settings
    ∷ cb_server_data ∷ cb_player_info_update ∷ cb_initialize_border ∷ cb_set_default_spawn_position
    ∷ cb_set_experience ∷ cb_set_health ∷ []

abbrev pub without_template : List ℕ → List (ℕ × Option Bytes)
without_template [] = []
without_template (pid ∷ pids) = (pid, none) ∷ without_template pids

-- The captured packets, with a login packet in front exchanged for the one of the server. That one
-- gets the id 0x31.
abbrev pub with_login : List (ℕ × Bytes) → List (ℕ × Bytes)
unfolding login_bytes
with_login [] = []
with_login ((pid, body) ∷ packets) =
    (if pid == cb_login then (0x31, login_bytes play_login) else (pid, body)) ∷ packets

abbrev pub with_templates : List (ℕ × Bytes) → List (ℕ × Option Bytes)
with_templates [] = []
with_templates ((pid, body) ∷ packets) = (pid, some body) ∷ with_templates packets

module _ (floats : Floats) where
  -- `run_play_phase` up to the call of `finish_play_start`, where nothing was captured.
  unfoldable pub dynamic_burst : Bytes → ServerState floats → Option (ServerState floats × Sent)
  unfolding login_bytes send_each
  dynamic_burst template s =
      let (s', burst) = send_each floats s (without_template burst_ids) in
      and_then (send_chunks floats template (visible_chunks floats s') s') λ (s'', chunks).
        some (
          s'',
          (cb_login, login_bytes play_login) ∷ (burst ++ (chunks ++ center_packet (0, 0) ∷ [])),
        )

  -- `run_play_phase` up to the call of `finish_play_start`, on the captured packets.
  unfoldable pub initial_burst :
      Bytes → List (ℕ × Bytes) → ServerState floats → Option (ServerState floats × Sent)
  unfolding dynamic_burst with_login send_each
  initial_burst template [] s = dynamic_burst template s
  initial_burst template (packet ∷ packets) s =
      some (send_each floats s (with_templates (with_login (packet ∷ packets))))
