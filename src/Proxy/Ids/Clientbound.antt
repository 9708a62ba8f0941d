-- ===== src/Proxy/Ids/Clientbound.antt =====
-- The clientbound packet ids of the play state in crates/mc-proxy/src/packet_ids.rs.
mod Low
mod Middle
mod High
pub use Low.*
pub use Middle.*
pub use High.*
use pico_server_rs.Base.{ℕ, List, [], ◌∷◌}

-- All of them, in the order of the source.
abbrev pub clientbound_ids : List ℕ
clientbound_ids =
    cb_bundle ∷ cb_add_entity ∷ cb_animate ∷ cb_award_stats ∷ cb_block_changed_ack
    ∷ cb_block_destruction ∷ cb_block_entity_data ∷ cb_block_event ∷ cb_block_update ∷ cb_boss_event
    ∷ cb_change_difficulty ∷ cb_chunk_batch_finished ∷ cb_chunk_batch_start ∷ cb_chunks_biomes
    ∷ cb_clear_titles ∷ cb_command_suggestions ∷ cb_commands ∷ cb_container_close
    ∷ cb_container_set_content ∷ cb_container_set_data ∷ cb_container_set_slot ∷ cb_cookie_request
    ∷ cb_cooldown ∷ cb_custom_chat_completions ∷ cb_custom_payload ∷ cb_damage_event
    ∷ cb_debug_block_value ∷ cb_debug_chunk_value ∷ cb_debug_entity_value ∷ cb_debug_event
    ∷ cb_debug_sample ∷ cb_delete_chat ∷ cb_disconnect ∷ cb_disguised_chat ∷ cb_entity_event
    ∷ cb_entity_position_sync ∷ cb_explode ∷ cb_forget_level_chunk ∷ cb_game_event
    ∷ cb_game_rule_values ∷ cb_game_test_highlight_pos ∷ cb_mount_screen_open ∷ cb_hurt_animation
    ∷ cb_initialize_border ∷ cb_keep_alive ∷ cb_level_chunk_with_light ∷ cb_level_event
    ∷ cb_level_particles ∷ cb_light_update ∷ cb_login ∷ cb_low_disk_space_warning ∷ cb_map_item_data
    ∷ cb_merchant_offers ∷ cb_move_entity_pos ∷ cb_move_entity_pos_rot
    ∷ cb_move_minecart_along_track ∷ cb_move_entity_rot ∷ cb_move_vehicle ∷ cb_open_book
    ∷ cb_open_screen ∷ cb_open_sign_editor ∷ cb_ping ∷ cb_pong_response ∷ cb_place_ghost_recipe
    ∷ cb_player_abilities ∷ cb_player_chat ∷ cb_player_combat_end ∷ cb_player_combat_enter
    ∷ cb_player_combat_kill ∷ cb_player_info_remove ∷ cb_player_info_update ∷ cb_player_look_at
    ∷ cb_player_position ∷ cb_player_rotation ∷ cb_recipe_book_add ∷ cb_recipe_book_remove
    ∷ cb_recipe_book_settings ∷ cb_remove_entities ∷ cb_remove_mob_effect ∷ cb_reset_score
    ∷ cb_resource_pack_pop ∷ cb_resource_pack_push ∷ cb_respawn ∷ cb_rotate_head
    ∷ cb_section_blocks_update ∷ cb_select_advancements_tab ∷ cb_server_data
    ∷ cb_set_action_bar_text ∷ cb_set_border_center ∷ cb_set_border_lerp_size ∷ cb_set_border_size
    ∷ cb_set_border_warning_delay ∷ cb_set_border_warning_distance ∷ cb_set_camera
    ∷ cb_set_chunk_cache_center ∷ cb_set_chunk_cache_radius ∷ cb_set_cursor_item
    ∷ cb_set_default_spawn_position ∷ cb_set_display_objective ∷ cb_set_entity_data
    ∷ cb_set_entity_link ∷ cb_set_entity_motion ∷ cb_set_equipment ∷ cb_set_experience
    ∷ cb_set_health ∷ cb_set_held_slot ∷ cb_set_objective ∷ cb_set_passengers
    ∷ cb_set_player_inventory ∷ cb_set_player_team ∷ cb_set_score ∷ cb_set_simulation_distance
    ∷ cb_set_subtitle_text ∷ cb_set_time ∷ cb_set_title_text ∷ cb_set_titles_animation
    ∷ cb_sound_entity ∷ cb_sound ∷ cb_start_configuration ∷ cb_stop_sound ∷ cb_store_cookie
    ∷ cb_system_chat ∷ cb_tab_list ∷ cb_tag_query ∷ cb_take_item_entity ∷ cb_teleport_entity
    ∷ cb_test_instance_block_status ∷ cb_ticking_state ∷ cb_ticking_step ∷ cb_transfer
    ∷ cb_update_advancements ∷ cb_update_attributes ∷ cb_update_mob_effect ∷ cb_update_recipes
    ∷ cb_update_tags ∷ cb_projectile_power ∷ cb_custom_report_details ∷ cb_server_links
    ∷ cb_waypoint ∷ cb_clear_dialog ∷ cb_show_dialog ∷ []
