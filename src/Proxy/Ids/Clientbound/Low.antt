-- ===== src/Proxy/Ids/Clientbound/Low.antt =====
-- The clientbound packet ids below 0x40.
use pico_server_rs.Base.{ℕ}

abbrev pub cb_bundle : ℕ
cb_bundle = 0x00

abbrev pub cb_add_entity : ℕ
cb_add_entity = 0x01

abbrev pub cb_animate : ℕ
cb_animate = 0x02

abbrev pub cb_award_stats : ℕ
cb_award_stats = 0x03

abbrev pub cb_block_changed_ack : ℕ
cb_block_changed_ack = 0x04

abbrev pub cb_block_destruction : ℕ
cb_block_destruction = 0x05

abbrev pub cb_block_entity_data : ℕ
cb_block_entity_data = 0x06

abbrev pub cb_block_event : ℕ
cb_block_event = 0x07

abbrev pub cb_block_update : ℕ
cb_block_update = 0x08

abbrev pub cb_boss_event : ℕ
cb_boss_event = 0x09

abbrev pub cb_change_difficulty : ℕ
cb_change_difficulty = 0x0a

abbrev pub cb_chunk_batch_finished : ℕ
cb_chunk_batch_finished = 0x0b

abbrev pub cb_chunk_batch_start : ℕ
cb_chunk_batch_start = 0x0c

abbrev pub cb_chunks_biomes : ℕ
cb_chunks_biomes = 0x0d

abbrev pub cb_clear_titles : ℕ
cb_clear_titles = 0x0e

abbrev pub cb_command_suggestions : ℕ
cb_command_suggestions = 0x0f

abbrev pub cb_commands : ℕ
cb_commands = 0x10

abbrev pub cb_container_close : ℕ
cb_container_close = 0x11

abbrev pub cb_container_set_content : ℕ
cb_container_set_content = 0x12

abbrev pub cb_container_set_data : ℕ
cb_container_set_data = 0x13

abbrev pub cb_container_set_slot : ℕ
cb_container_set_slot = 0x14

abbrev pub cb_cookie_request : ℕ
cb_cookie_request = 0x15

abbrev pub cb_cooldown : ℕ
cb_cooldown = 0x16

abbrev pub cb_custom_chat_completions : ℕ
cb_custom_chat_completions = 0x17

abbrev pub cb_custom_payload : ℕ
cb_custom_payload = 0x18

abbrev pub cb_damage_event : ℕ
cb_damage_event = 0x19

abbrev pub cb_debug_block_value : ℕ
cb_debug_block_value = 0x1a

abbrev pub cb_debug_chunk_value : ℕ
cb_debug_chunk_value = 0x1b

abbrev pub cb_debug_entity_value : ℕ
cb_debug_entity_value = 0x1c

abbrev pub cb_debug_event : ℕ
cb_debug_event = 0x1d

abbrev pub cb_debug_sample : ℕ
cb_debug_sample = 0x1e

abbrev pub cb_delete_chat : ℕ
cb_delete_chat = 0x1f

abbrev pub cb_disconnect : ℕ
cb_disconnect = 0x20

abbrev pub cb_disguised_chat : ℕ
cb_disguised_chat = 0x21

abbrev pub cb_entity_event : ℕ
cb_entity_event = 0x22

abbrev pub cb_entity_position_sync : ℕ
cb_entity_position_sync = 0x23

abbrev pub cb_explode : ℕ
cb_explode = 0x24

abbrev pub cb_forget_level_chunk : ℕ
cb_forget_level_chunk = 0x25

abbrev pub cb_game_event : ℕ
cb_game_event = 0x26

abbrev pub cb_game_rule_values : ℕ
cb_game_rule_values = 0x27

abbrev pub cb_game_test_highlight_pos : ℕ
cb_game_test_highlight_pos = 0x28

abbrev pub cb_mount_screen_open : ℕ
cb_mount_screen_open = 0x29

abbrev pub cb_hurt_animation : ℕ
cb_hurt_animation = 0x2a

abbrev pub cb_initialize_border : ℕ
cb_initialize_border = 0x2b

abbrev pub cb_keep_alive : ℕ
cb_keep_alive = 0x2c

abbrev pub cb_level_chunk_with_light : ℕ
cb_level_chunk_with_light = 0x2d

abbrev pub cb_level_event : ℕ
cb_level_event = 0x2e

abbrev pub cb_level_particles : ℕ
cb_level_particles = 0x2f

abbrev pub cb_light_update : ℕ
cb_light_update = 0x30

abbrev pub cb_login : ℕ
cb_login = 0x31

abbrev pub cb_low_disk_space_warning : ℕ
cb_low_disk_space_warning = 0x32

abbrev pub cb_map_item_data : ℕ
cb_map_item_data = 0x33

abbrev pub cb_merchant_offers : ℕ
cb_merchant_offers = 0x34

abbrev pub cb_move_entity_pos : ℕ
cb_move_entity_pos = 0x35

abbrev pub cb_move_entity_pos_rot : ℕ
cb_move_entity_pos_rot = 0x36

abbrev pub cb_move_minecart_along_track : ℕ
cb_move_minecart_along_track = 0x37

abbrev pub cb_move_entity_rot : ℕ
cb_move_entity_rot = 0x38

abbrev pub cb_move_vehicle : ℕ
cb_move_vehicle = 0x39

abbrev pub cb_open_book : ℕ
cb_open_book = 0x3a

abbrev pub cb_open_screen : ℕ
cb_open_screen = 0x3b

abbrev pub cb_open_sign_editor : ℕ
cb_open_sign_editor = 0x3c

abbrev pub cb_ping : ℕ
cb_ping = 0x3d

abbrev pub cb_pong_response : ℕ
cb_pong_response = 0x3e

abbrev pub cb_place_ghost_recipe : ℕ
cb_place_ghost_recipe = 0x3f
