-- ===== src/Proxy/Ids/Serverbound.antt =====
-- The serverbound packet ids of the play state in crates/mc-proxy/src/packet_ids.rs.
use pico_server_rs.Base.{ℕ, List, [], ◌∷◌}

abbrev pub sb_accept_teleportation : ℕ
sb_accept_teleportation = 0x00

abbrev pub sb_attack : ℕ
sb_attack = 0x01

abbrev pub sb_block_entity_tag_query : ℕ
sb_block_entity_tag_query = 0x02

abbrev pub sb_bundle_item_selected : ℕ
sb_bundle_item_selected = 0x03

abbrev pub sb_change_difficulty : ℕ
sb_change_difficulty = 0x04

abbrev pub sb_change_game_mode : ℕ
sb_change_game_mode = 0x05

abbrev pub sb_chat_ack : ℕ
sb_chat_ack = 0x06

abbrev pub sb_chat_command : ℕ
sb_chat_command = 0x07

abbrev pub sb_chat_command_signed : ℕ
sb_chat_command_signed = 0x08

abbrev pub sb_chat : ℕ
sb_chat = 0x09

abbrev pub sb_chat_session_update : ℕ
sb_chat_session_update = 0x0a

abbrev pub sb_chunk_batch_received : ℕ
sb_chunk_batch_received = 0x0b

abbrev pub sb_client_command : ℕ
sb_client_command = 0x0c

abbrev pub sb_client_tick_end : ℕ
sb_client_tick_end = 0x0d

abbrev pub sb_client_information : ℕ
sb_client_information = 0x0e

abbrev pub sb_command_suggestion : ℕ
sb_command_suggestion = 0x0f

abbrev pub sb_configuration_acknowledged : ℕ
sb_configuration_acknowledged = 0x10

abbrev pub sb_container_button_click : ℕ
sb_container_button_click = 0x11

abbrev pub sb_container_click : ℕ
sb_container_click = 0x12

abbrev pub sb_container_close : ℕ
sb_container_close = 0x13

abbrev pub sb_container_slot_state_changed : ℕ
sb_container_slot_state_changed = 0x14

abbrev pub sb_cookie_response : ℕ
sb_cookie_response = 0x15

abbrev pub sb_custom_payload : ℕ
sb_custom_payload = 0x16

abbrev pub sb_debug_subscription_request : ℕ
sb_debug_subscription_request = 0x17

abbrev pub sb_edit_book : ℕ
sb_edit_book = 0x18

abbrev pub sb_entity_tag_query : ℕ
sb_entity_tag_query = 0x19

abbrev pub sb_interact : ℕ
sb_interact = 0x1a

abbrev pub sb_jigsaw_generate : ℕ
sb_jigsaw_generate = 0x1b

abbrev pub sb_keep_alive : ℕ
sb_keep_alive = 0x1c

abbrev pub sb_lock_difficulty : ℕ
sb_lock_difficulty = 0x1d

abbrev pub sb_move_player_pos : ℕ
sb_move_player_pos = 0x1e

abbrev pub sb_move_player_pos_rot : ℕ
sb_move_player_pos_rot = 0x1f

abbrev pub sb_move_player_rot : ℕ
sb_move_player_rot = 0x20

abbrev pub sb_move_player_status_only : ℕ
sb_move_player_status_only = 0x21

abbrev pub sb_move_vehicle : ℕ
sb_move_vehicle = 0x22

abbrev pub sb_paddle_boat : ℕ
sb_paddle_boat = 0x23

abbrev pub sb_pick_item_from_block : ℕ
sb_pick_item_from_block = 0x24

abbrev pub sb_pick_item_from_entity : ℕ
sb_pick_item_from_entity = 0x25

abbrev pub sb_ping_request : ℕ
sb_ping_request = 0x26

abbrev pub sb_place_recipe : ℕ
sb_place_recipe = 0x27

abbrev pub sb_player_abilities : ℕ
sb_player_abilities = 0x28

abbrev pub sb_player_action : ℕ
sb_player_action = 0x29

abbrev pub sb_player_command : ℕ
sb_player_command = 0x2a

abbrev pub sb_player_input : ℕ
sb_player_input = 0x2b

abbrev pub sb_player_loaded : ℕ
sb_player_loaded = 0x2c

abbrev pub sb_pong : ℕ
sb_pong = 0x2d

abbrev pub sb_recipe_book_change_settings : ℕ
sb_recipe_book_change_settings = 0x2e

abbrev pub sb_recipe_book_seen_recipe : ℕ
sb_recipe_book_seen_recipe = 0x2f

abbrev pub sb_rename_item : ℕ
sb_rename_item = 0x30

abbrev pub sb_resource_pack : ℕ
sb_resource_pack = 0x31

abbrev pub sb_seen_advancements : ℕ
sb_seen_advancements = 0x32

abbrev pub sb_select_trade : ℕ
sb_select_trade = 0x33

abbrev pub sb_set_beacon : ℕ
sb_set_beacon = 0x34

abbrev pub sb_set_carried_item : ℕ
sb_set_carried_item = 0x35

abbrev pub sb_set_command_block : ℕ
sb_set_command_block = 0x36

abbrev pub sb_set_command_minecart : ℕ
sb_set_command_minecart = 0x37

abbrev pub sb_set_creative_mode_slot : ℕ
sb_set_creative_mode_slot = 0x38

abbrev pub sb_set_game_rule : ℕ
sb_set_game_rule = 0x39

abbrev pub sb_set_jigsaw_block : ℕ
sb_set_jigsaw_block = 0x3a

abbrev pub sb_set_structure_block : ℕ
sb_set_structure_block = 0x3b

abbrev pub sb_set_test_block : ℕ
sb_set_test_block = 0x3c

abbrev pub sb_sign_update : ℕ
sb_sign_update = 0x3d

abbrev pub sb_spectator_action : ℕ
sb_spectator_action = 0x3e

abbrev pub sb_swing : ℕ
sb_swing = 0x3f

abbrev pub sb_teleport_to_entity : ℕ
sb_teleport_to_entity = 0x40

abbrev pub sb_test_instance_block_action : ℕ
sb_test_instance_block_action = 0x41

abbrev pub sb_use_item_on : ℕ
sb_use_item_on = 0x42

abbrev pub sb_use_item : ℕ
sb_use_item = 0x43

abbrev pub sb_custom_click_action : ℕ
sb_custom_click_action = 0x44

-- All of them, in the order of the source.
abbrev pub serverbound_ids : List ℕ
serverbound_ids =
    sb_accept_teleportation ∷ sb_attack ∷ sb_block_entity_tag_query ∷ sb_bundle_item_selected
    ∷ sb_change_difficulty ∷ sb_change_game_mode ∷ sb_chat_ack ∷ sb_chat_command
    ∷ sb_chat_command_signed ∷ sb_chat ∷ sb_chat_session_update ∷ sb_chunk_batch_received
    ∷ sb_client_command ∷ sb_client_tick_end ∷ sb_client_information ∷ sb_command_suggestion
    ∷ sb_configuration_acknowledged ∷ sb_container_button_click ∷ sb_container_click
    ∷ sb_container_close ∷ sb_container_slot_state_changed ∷ sb_cookie_response ∷ sb_custom_payload
    ∷ sb_debug_subscription_request ∷ sb_edit_book ∷ sb_entity_tag_query ∷ sb_interact
    ∷ sb_jigsaw_generate ∷ sb_keep_alive ∷ sb_lock_difficulty ∷ sb_move_player_pos
    ∷ sb_move_player_pos_rot ∷ sb_move_player_rot ∷ sb_move_player_status_only ∷ sb_move_vehicle
    ∷ sb_paddle_boat ∷ sb_pick_item_from_block ∷ sb_pick_item_from_entity ∷ sb_ping_request
    ∷ sb_place_recipe ∷ sb_player_abilities ∷ sb_player_action ∷ sb_player_command ∷ sb_player_input
    ∷ sb_player_loaded ∷ sb_pong ∷ sb_recipe_book_change_settings ∷ sb_recipe_book_seen_recipe
    ∷ sb_rename_item ∷ sb_resource_pack ∷ sb_seen_advancements ∷ sb_select_trade ∷ sb_set_beacon
    ∷ sb_set_carried_item ∷ sb_set_command_block ∷ sb_set_command_minecart
    ∷ sb_set_creative_mode_slot ∷ sb_set_game_rule ∷ sb_set_jigsaw_block ∷ sb_set_structure_block
    ∷ sb_set_test_block ∷ sb_sign_update ∷ sb_spectator_action ∷ sb_swing ∷ sb_teleport_to_entity
    ∷ sb_test_instance_block_action ∷ sb_use_item_on ∷ sb_use_item ∷ sb_custom_click_action ∷ []
