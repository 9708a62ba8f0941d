-- ===== src/Proxy/Ids/Clientbound/Middle.antt =====
-- The clientbound packet ids from 0x40 to 0x6f.
use pico_server_rs.Base.{ℕ}

abbrev pub cb_player_abilities : ℕ
cb_player_abilities = 0x40

abbrev pub cb_player_chat : ℕ
cb_player_chat = 0x41

abbrev pub cb_player_combat_end : ℕ
cb_player_combat_end = 0x42

abbrev pub cb_player_combat_enter : ℕ
cb_player_combat_enter = 0x43

abbrev pub cb_player_combat_kill : ℕ
cb_player_combat_kill = 0x44

abbrev pub cb_player_info_remove : ℕ
cb_player_info_remove = 0x45

abbrev pub cb_player_info_update : ℕ
cb_player_info_update = 0x46

abbrev pub cb_player_look_at : ℕ
cb_player_look_at = 0x47

abbrev pub cb_player_position : ℕ
cb_player_position = 0x48

abbrev pub cb_player_rotation : ℕ
cb_player_rotation = 0x49

abbrev pub cb_recipe_book_add : ℕ
cb_recipe_book_add = 0x4a

abbrev pub cb_recipe_book_remove : ℕ
cb_recipe_book_remove = 0x4b

abbrev pub cb_recipe_book_settings : ℕ
cb_recipe_book_settings = 0x4c

abbrev pub cb_remove_entities : ℕ
cb_remove_entities = 0x4d

abbrev pub cb_remove_mob_effect : ℕ
cb_remove_mob_effect = 0x4e

abbrev pub cb_reset_score : ℕ
cb_reset_score = 0x4f

abbrev pub cb_resource_pack_pop : ℕ
cb_resource_pack_pop = 0x50

abbrev pub cb_resource_pack_push : ℕ
cb_resource_pack_push = 0x51

abbrev pub cb_respawn : ℕ
cb_respawn = 0x52

abbrev pub cb_rotate_head : ℕ
cb_rotate_head = 0x53

abbrev pub cb_section_blocks_update : ℕ
cb_section_blocks_update = 0x54

abbrev pub cb_select_advancements_tab : ℕ
cb_select_advancements_tab = 0x55

abbrev pub cb_server_data : ℕ
cb_server_data = 0x56

abbrev pub cb_set_action_bar_text : ℕ
cb_set_action_bar_text = 0x57

abbrev pub cb_set_border_center : ℕ
cb_set_border_center = 0x58

abbrev pub cb_set_border_lerp_size : ℕ
cb_set_border_lerp_size = 0x59

abbrev pub cb_set_border_size : ℕ
cb_set_border_size = 0x5a

abbrev pub cb_set_border_warning_delay : ℕ
cb_set_border_warning_delay = 0x5b

abbrev pub cb_set_border_warning_distance : ℕ
cb_set_border_warning_distance = 0x5c

abbrev pub cb_set_camera : ℕ
cb_set_camera = 0x5d

abbrev pub cb_set_chunk_cache_center : ℕ
cb_set_chunk_cache_center = 0x5e

abbrev pub cb_set_chunk_cache_radius : ℕ
cb_set_chunk_cache_radius = 0x5f

abbrev pub cb_set_cursor_item : ℕ
cb_set_cursor_item = 0x60

abbrev pub cb_set_default_spawn_position : ℕ
cb_set_default_spawn_position = 0x61

abbrev pub cb_set_display_objective : ℕ
cb_set_display_objective = 0x62

abbrev pub cb_set_entity_data : ℕ
cb_set_entity_data = 0x63

abbrev pub cb_set_entity_link : ℕ
cb_set_entity_link = 0x64

abbrev pub cb_set_entity_motion : ℕ
cb_set_entity_motion = 0x65

abbrev pub cb_set_equipment : ℕ
cb_set_equipment = 0x66

abbrev pub cb_set_experience : ℕ
cb_set_experience = 0x67

abbrev pub cb_set_health : ℕ
cb_set_health = 0x68

abbrev pub cb_set_held_slot : ℕ
cb_set_held_slot = 0x69

abbrev pub cb_set_objective : ℕ
cb_set_objective = 0x6a

abbrev pub cb_set_passengers : ℕ
cb_set_passengers = 0x6b

abbrev pub cb_set_player_inventory : ℕ
cb_set_player_inventory = 0x6c

abbrev pub cb_set_player_team : ℕ
cb_set_player_team = 0x6d

abbrev pub cb_set_score : ℕ
cb_set_score = 0x6e

abbrev pub cb_set_simulation_distance : ℕ
cb_set_simulation_distance = 0x6f
