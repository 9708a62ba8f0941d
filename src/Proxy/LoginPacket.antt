-- ===== src/Proxy/LoginPacket.antt =====
-- crates/mc-proxy/src/login_packet.rs: the packet that a client gets when it joins the game.
pub mod RoundTrip
use pico_server_rs.Base.{
  ℕ, ◌-◌, ◌^◌, List, [], ◌∷◌, Bool, true, false, Option, none, some, ◌==◌, if◌then◌else◌, length,
}
use pico_server_rs.Base.Words.{Bytes, as_i32}
use pico_server_rs.Base.Codec.{Writer, ◌▹◌, put, put_be}
use pico_server_rs.Varint.{write_var_int}
use pico_server_rs.Proto.Config.{put_bool, write_counted}

pub record DeathLocation : Type 0 where
  pub dimension : Bytes
  pub position : ℕ

pub record LoginPacket : Type 0 where
  pub entity_id : ℕ
  pub hardcore : Bool
  pub dimensions : List Bytes
  pub max_players : ℕ
  pub view_distance : ℕ
  pub sim_distance : ℕ
  pub reduced_debug_info : Bool
  pub enable_respawn_screen : Bool
  pub do_limited_crafting : Bool
  pub dimension_type : Bytes
  pub dimension_name : Bytes
  pub seed : ℕ
  pub game_type : ℕ
  pub previous_game_type : ℕ
  pub is_debug : Bool
  pub is_flat : Bool
  pub death_location : Option DeathLocation
  pub portal_cooldown : ℕ
  pub sea_level : ℕ
  pub envelope_follows : Bool

-- The texts of the default packet: minecraft:overworld, minecraft:the_end, minecraft:the_nether.
abbrev pub overworld : Bytes
overworld =
    109 ∷ 105 ∷ 110 ∷ 101 ∷ 99 ∷ 114 ∷ 97 ∷ 102 ∷ 116 ∷ 58 ∷ 111 ∷ 118 ∷ 101 ∷ 114 ∷ 119 ∷ 111 ∷ 114
    ∷ 108 ∷ 100 ∷ []

abbrev pub the_end : Bytes
the_end =
    109 ∷ 105 ∷ 110 ∷ 101 ∷ 99 ∷ 114 ∷ 97 ∷ 102 ∷ 116 ∷ 58 ∷ 116 ∷ 104 ∷ 101 ∷ 95 ∷ 101 ∷ 110 ∷ 100
    ∷ []

abbrev pub the_nether : Bytes
the_nether =
    109 ∷ 105 ∷ 110 ∷ 101 ∷ 99 ∷ 114 ∷ 97 ∷ 102 ∷ 116 ∷ 58 ∷ 116 ∷ 104 ∷ 101 ∷ 95 ∷ 110 ∷ 101 ∷ 116
    ∷ 104 ∷ 101 ∷ 114 ∷ []

-- `LoginPacket::default`; the previous game type is -1.
abbrev pub default_login : LoginPacket
default_login = record {
  entity_id = 0;
  hardcore = false;
  dimensions = overworld ∷ the_end ∷ the_nether ∷ [];
  max_players = 20;
  view_distance = 10;
  sim_distance = 10;
  reduced_debug_info = false;
  enable_respawn_screen = true;
  do_limited_crafting = false;
  dimension_type = [];
  dimension_name = overworld;
  seed = 0;
  game_type = 0;
  previous_game_type = 2 ^ 32 - 1;
  is_debug = false;
  is_flat = false;
  death_location = none;
  portal_cooldown = 0;
  sea_level = 63;
  envelope_follows = false;
}

-- `LoginPacket::write_string`.
unfoldable pub write_text : Bytes → Writer
write_text s = write_var_int (as_i32 (length s)) ▹ put s

-- 127 is written in two bytes, one more than it needs.
unfoldable pub write_previous_game_type : ℕ → Writer
write_previous_game_type v = if v == 127 then put_be 1 0xff ▹ put_be 1 0x00 else write_var_int v

unfoldable pub write_death_location : Option DeathLocation → Writer
unfolding write_text
write_death_location none = put_be 1 0
write_death_location (some dl) = put_be 1 1 ▹ write_text dl.dimension ▹ put_be 8 dl.position

-- What `LoginPacket::to_bytes` appends to its empty buffer.
unfoldable pub write_login : LoginPacket → Writer
unfolding write_text write_previous_game_type write_death_location
write_login p =
    put_be 4 p.entity_id
    ▹ put_bool p.hardcore
    ▹ write_counted write_text p.dimensions
    ▹ write_var_int p.max_players
    ▹ write_var_int p.view_distance
    ▹ write_var_int p.sim_distance
    ▹ put_bool p.reduced_debug_info
    ▹ put_bool p.enable_respawn_screen
    ▹ put_bool p.do_limited_crafting
    ▹ write_text p.dimension_type
    ▹ write_text p.dimension_name
    ▹ put_be 8 p.seed
    ▹ write_var_int p.game_type
    ▹ write_previous_game_type p.previous_game_type
    ▹ put_bool p.is_debug
    ▹ put_bool p.is_flat
    ▹ write_death_location p.death_location
    ▹ write_var_int p.portal_cooldown
    ▹ write_var_int p.sea_level
    ▹ put_bool p.envelope_follows

-- `LoginPacket::to_bytes`.
unfoldable pub login_bytes : LoginPacket → Bytes
unfolding write_login
login_bytes p = write_login p []
