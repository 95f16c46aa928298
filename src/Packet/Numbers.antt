-- ===== src/Packet/Numbers.antt =====
-- A member of an enumeration is found by its number.
use gtools.Prelude.{◌≡◌, refl, ◌<◌, arith}
use gtools.Python.Exec.{ok}
use gtools.Packet.Types.{
  NetType, TankType, net_code, tank_code, parse_net_type, parse_tank_type, unknown, server_hello,
  generic_text, game_message, tank_packet, error, track, client_log_request, client_log_response,
  sync_client_position, write_to_ring_buffer, state, call_function, update_status,
  tile_change_request, send_map_data, send_tile_update_data, send_tile_update_data_multiple,
  tile_activate_request, tile_apply_damage, send_inventory_state, item_activate_request,
  item_activate_object_request, send_tile_tree_state, modify_item_inventory, item_change_object,
  send_lock, send_item_database_data, send_particle_effect, set_icon_state, item_effect,
  set_character_state, ping_reply, ping_request, got_punched, app_check_response,
  app_integrity_fail, disconnect, battle_join, battle_event, use_door, send_parental, gone_fishin,
  steam, pet_battle, npc, special, send_particle_effect_v2, activate_arrow_to_item,
  select_tile_index, send_player_tribute_data, ftue_set_item_to_quick_inventory, pve_npc,
  pvp_card_battle, pve_apply_player_damage, pve_npc_position_update, set_extra_mods,
  on_step_tile_mod,
}

pub parse_net_type-net_code : (t : NetType) → parse_net_type (net_code t) ≡ ok t
unfolding parse_net_type
parse_net_type-net_code unknown = refl
parse_net_type-net_code server_hello = refl
parse_net_type-net_code generic_text = refl
parse_net_type-net_code game_message = refl
parse_net_type-net_code tank_packet = refl
parse_net_type-net_code error = refl
parse_net_type-net_code track = refl
parse_net_type-net_code client_log_request = refl
parse_net_type-net_code client_log_response = refl
parse_net_type-net_code sync_client_position = refl
parse_net_type-net_code write_to_ring_buffer = refl

pub net_code-lt : (t : NetType) → net_code t < 256
net_code-lt unknown = omega arith
net_code-lt server_hello = omega arith
net_code-lt generic_text = omega arith
net_code-lt game_message = omega arith
net_code-lt tank_packet = omega arith
net_code-lt error = omega arith
net_code-lt track = omega arith
net_code-lt client_log_request = omega arith
net_code-lt client_log_response = omega arith
net_code-lt sync_client_position = omega arith
net_code-lt write_to_ring_buffer = omega arith

pub parse_tank_type-tank_code : (t : TankType) → parse_tank_type (tank_code t) ≡ ok t
unfolding parse_tank_type
parse_tank_type-tank_code state = refl
parse_tank_type-tank_code call_function = refl
parse_tank_type-tank_code update_status = refl
parse_tank_type-tank_code tile_change_request = refl
parse_tank_type-tank_code send_map_data = refl
parse_tank_type-tank_code send_tile_update_data = refl
parse_tank_type-tank_code send_tile_update_data_multiple = refl
parse_tank_type-tank_code tile_activate_request = refl
parse_tank_type-tank_code tile_apply_damage = refl
parse_tank_type-tank_code send_inventory_state = refl
parse_tank_type-tank_code item_activate_request = refl
parse_tank_type-tank_code item_activate_object_request = refl
parse_tank_type-tank_code send_tile_tree_state = refl
parse_tank_type-tank_code modify_item_inventory = refl
parse_tank_type-tank_code item_change_object = refl
parse_tank_type-tank_code send_lock = refl
parse_tank_type-tank_code send_item_database_data = refl
parse_tank_type-tank_code send_particle_effect = refl
parse_tank_type-tank_code set_icon_state = refl
parse_tank_type-tank_code item_effect = refl
parse_tank_type-tank_code set_character_state = refl
parse_tank_type-tank_code ping_reply = refl
parse_tank_type-tank_code ping_request = refl
parse_tank_type-tank_code got_punched = refl
parse_tank_type-tank_code app_check_response = refl
parse_tank_type-tank_code app_integrity_fail = refl
parse_tank_type-tank_code disconnect = refl
parse_tank_type-tank_code battle_join = refl
parse_tank_type-tank_code battle_event = refl
parse_tank_type-tank_code use_door = refl
parse_tank_type-tank_code send_parental = refl
parse_tank_type-tank_code gone_fishin = refl
parse_tank_type-tank_code steam = refl
parse_tank_type-tank_code pet_battle = refl
parse_tank_type-tank_code npc = refl
parse_tank_type-tank_code special = refl
parse_tank_type-tank_code send_particle_effect_v2 = refl
parse_tank_type-tank_code activate_arrow_to_item = refl
parse_tank_type-tank_code select_tile_index = refl
parse_tank_type-tank_code send_player_tribute_data = refl
parse_tank_type-tank_code ftue_set_item_to_quick_inventory = refl
parse_tank_type-tank_code pve_npc = refl
parse_tank_type-tank_code pvp_card_battle = refl
parse_tank_type-tank_code pve_apply_player_damage = refl
parse_tank_type-tank_code pve_npc_position_update = refl
parse_tank_type-tank_code set_extra_mods = refl
parse_tank_type-tank_code on_step_tile_mod = refl

pub tank_code-lt : (t : TankType) → tank_code t < 256
tank_code-lt state = omega arith
tank_code-lt call_function = omega arith
tank_code-lt update_status = omega arith
tank_code-lt tile_change_request = omega arith
tank_code-lt send_map_data = omega arith
tank_code-lt send_tile_update_data = omega arith
tank_code-lt send_tile_update_data_multiple = omega arith
tank_code-lt tile_activate_request = omega arith
tank_code-lt tile_apply_damage = omega arith
tank_code-lt send_inventory_state = omega arith
tank_code-lt item_activate_request = omega arith
tank_code-lt item_activate_object_request = omega arith
tank_code-lt send_tile_tree_state = omega arith
tank_code-lt modify_item_inventory = omega arith
tank_code-lt item_change_object = omega arith
tank_code-lt send_lock = omega arith
tank_code-lt send_item_database_data = omega arith
tank_code-lt send_particle_effect = omega arith
tank_code-lt set_icon_state = omega arith
tank_code-lt item_effect = omega arith
tank_code-lt set_character_state = omega arith
tank_code-lt ping_reply = omega arith
tank_code-lt ping_request = omega arith
tank_code-lt got_punched = omega arith
tank_code-lt app_check_response = omega arith
tank_code-lt app_integrity_fail = omega arith
tank_code-lt disconnect = omega arith
tank_code-lt battle_join = omega arith
tank_code-lt battle_event = omega arith
tank_code-lt use_door = omega arith
tank_code-lt send_parental = omega arith
tank_code-lt gone_fishin = omega arith
tank_code-lt steam = omega arith
tank_code-lt pet_battle = omega arith
tank_code-lt npc = omega arith
tank_code-lt special = omega arith
tank_code-lt send_particle_effect_v2 = omega arith
tank_code-lt activate_arrow_to_item = omega arith
tank_code-lt select_tile_index = omega arith
tank_code-lt send_player_tribute_data = omega arith
tank_code-lt ftue_set_item_to_quick_inventory = omega arith
tank_code-lt pve_npc = omega arith
tank_code-lt pvp_card_battle = omega arith
tank_code-lt pve_apply_player_damage = omega arith
tank_code-lt pve_npc_position_update = omega arith
tank_code-lt set_extra_mods = omega arith
tank_code-lt on_step_tile_mod = omega arith
