-- ===== src/Proxy/Ids/Clientbound/High.antt =====
-- The clientbound packet ids from 0x70 on.
use pico_server_rs.Base.{ℕ}

abbrev pub cb_set_subtitle_text : ℕ
cb_set_subtitle_text = 0x70

abbrev pub cb_set_time : ℕ
cb_set_time = 0x71

abbrev pub cb_set_title_text : ℕ
cb_set_title_text = 0x72

abbrev pub cb_set_titles_animation : ℕ
cb_set_titles_animation = 0x73

abbrev pub cb_sound_entity : ℕ
cb_sound_entity = 0x74

abbrev pub cb_sound : ℕ
cb_sound = 0x75

abbrev pub cb_start_configuration : ℕ
cb_start_configuration = 0x76

abbrev pub cb_stop_sound : ℕ
cb_stop_sound = 0x77

abbrev pub cb_store_cookie : ℕ
cb_store_cookie = 0x78

abbrev pub cb_system_chat : ℕ
cb_system_chat = 0x79

abbrev pub cb_tab_list : ℕ
cb_tab_list = 0x7a

abbrev pub cb_tag_query : ℕ
cb_tag_query = 0x7b

abbrev pub cb_take_item_entity : ℕ
cb_take_item_entity = 0x7c

abbrev pub cb_teleport_entity : ℕ
cb_teleport_entity = 0x7d

abbrev pub cb_test_instance_block_status : ℕ
cb_test_instance_block_status = 0x7e

abbrev pub cb_ticking_state : ℕ
cb_ticking_state = 0x7f

abbrev pub cb_ticking_step : ℕ
cb_ticking_step = 0x80

abbrev pub cb_transfer : ℕ
cb_transfer = 0x81

abbrev pub cb_update_advancements : ℕ
cb_update_advancements = 0x82

abbrev pub cb_update_attributes : ℕ
cb_update_attributes = 0x83

abbrev pub cb_update_mob_effect : ℕ
cb_update_mob_effect = 0x84

abbrev pub cb_update_recipes : ℕ
cb_update_recipes = 0x85

abbrev pub cb_update_tags : ℕ
cb_update_tags = 0x86

abbrev pub cb_projectile_power : ℕ
cb_projectile_power = 0x87

abbrev pub cb_custom_report_details : ℕ
cb_custom_report_details = 0x88

abbrev pub cb_server_links : ℕ
cb_server_links = 0x89

abbrev pub cb_waypoint : ℕ
cb_waypoint = 0x8a

abbrev pub cb_clear_dialog : ℕ
cb_clear_dialog = 0x8b

abbrev pub cb_show_dialog : ℕ
cb_show_dialog = 0x8c
