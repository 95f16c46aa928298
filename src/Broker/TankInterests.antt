-- ===== src/Broker/TankInterests.antt =====
-- Every tank packet type has an interest type of its own, and the set of tank interests has no other.
use gtools.Prelude.{◌+◌, ◌≡◌, refl, sym, ap, ◌∙◌, true, arith}
use gtools.Python.Exec.{ok_injective}
use gtools.Packet.Types.{
  TankType, tank_code, parse_tank_type, state, call_function, update_status, tile_change_request,
  send_map_data, send_tile_update_data, send_tile_update_data_multiple, tile_activate_request,
  tile_apply_damage, send_inventory_state, item_activate_request, item_activate_object_request,
  send_tile_tree_state, modify_item_inventory, item_change_object, send_lock,
  send_item_database_data, send_particle_effect, set_icon_state, item_effect, set_character_state,
  ping_reply, ping_request, got_punched, app_check_response, app_integrity_fail, disconnect,
  battle_join, battle_event, use_door, send_parental, gone_fishin, steam, pet_battle, npc, special,
  send_particle_effect_v2, activate_arrow_to_item, select_tile_index, send_player_tribute_data,
  ftue_set_item_to_quick_inventory, pve_npc, pvp_card_battle, pve_apply_player_damage,
  pve_npc_position_update, set_extra_mods, on_step_tile_mod,
}
use gtools.Packet.Numbers.{parse_tank_type-tank_code}
use gtools.Broker.Interests.{tank_interest, is_tank_interest}

pub tank_interest-tank_code : (t : TankType) → tank_interest t ≡ tank_code t + 11
unfolding tank_interest
tank_interest-tank_code state = refl
tank_interest-tank_code call_function = refl
tank_interest-tank_code update_status = refl
tank_interest-tank_code tile_change_request = refl
tank_interest-tank_code send_map_data = refl
tank_interest-tank_code send_tile_update_data = refl
tank_interest-tank_code send_tile_update_data_multiple = refl
tank_interest-tank_code tile_activate_request = refl
tank_interest-tank_code tile_apply_damage = refl
tank_interest-tank_code send_inventory_state = refl
tank_interest-tank_code item_activate_request = refl
tank_interest-tank_code item_activate_object_request = refl
tank_interest-tank_code send_tile_tree_state = refl
tank_interest-tank_code modify_item_inventory = refl
tank_interest-tank_code item_change_object = refl
tank_interest-tank_code send_lock = refl
tank_interest-tank_code send_item_database_data = refl
tank_interest-tank_code send_particle_effect = refl
tank_interest-tank_code set_icon_state = refl
tank_interest-tank_code item_effect = refl
tank_interest-tank_code set_character_state = refl
tank_interest-tank_code ping_reply = refl
tank_interest-tank_code ping_request = refl
tank_interest-tank_code got_punched = refl
tank_interest-tank_code app_check_response = refl
tank_interest-tank_code app_integrity_fail = refl
tank_interest-tank_code disconnect = refl
tank_interest-tank_code battle_join = refl
tank_interest-tank_code battle_event = refl
tank_interest-tank_code use_door = refl
tank_interest-tank_code send_parental = refl
tank_interest-tank_code gone_fishin = refl
tank_interest-tank_code steam = refl
tank_interest-tank_code pet_battle = refl
tank_interest-tank_code npc = refl
tank_interest-tank_code special = refl
tank_interest-tank_code send_particle_effect_v2 = refl
tank_interest-tank_code activate_arrow_to_item = refl
tank_interest-tank_code select_tile_index = refl
tank_interest-tank_code send_player_tribute_data = refl
tank_interest-tank_code ftue_set_item_to_quick_inventory = refl
tank_interest-tank_code pve_npc = refl
tank_interest-tank_code pvp_card_battle = refl
tank_interest-tank_code pve_apply_player_damage = refl
tank_interest-tank_code pve_npc_position_update = refl
tank_interest-tank_code set_extra_mods = refl
tank_interest-tank_code on_step_tile_mod = refl

is_tank_interest-tank_interest : (t : TankType) → is_tank_interest (tank_interest t) ≡ true
unfolding tank_interest is_tank_interest
is_tank_interest-tank_interest state = refl
is_tank_interest-tank_interest call_function = refl
is_tank_interest-tank_interest update_status = refl
is_tank_interest-tank_interest tile_change_request = refl
is_tank_interest-tank_interest send_map_data = refl
is_tank_interest-tank_interest send_tile_update_data = refl
is_tank_interest-tank_interest send_tile_update_data_multiple = refl
is_tank_interest-tank_interest tile_activate_request = refl
is_tank_interest-tank_interest tile_apply_damage = refl
is_tank_interest-tank_interest send_inventory_state = refl
is_tank_interest-tank_interest item_activate_request = refl
is_tank_interest-tank_interest item_activate_object_request = refl
is_tank_interest-tank_interest send_tile_tree_state = refl
is_tank_interest-tank_interest modify_item_inventory = refl
is_tank_interest-tank_interest item_change_object = refl
is_tank_interest-tank_interest send_lock = refl
is_tank_interest-tank_interest send_item_database_data = refl
is_tank_interest-tank_interest send_particle_effect = refl
is_tank_interest-tank_interest set_icon_state = refl
is_tank_interest-tank_interest item_effect = refl
is_tank_interest-tank_interest set_character_state = refl
is_tank_interest-tank_interest ping_reply = refl
is_tank_interest-tank_interest ping_request = refl
is_tank_interest-tank_interest got_punched = refl
is_tank_interest-tank_interest app_check_response = refl
is_tank_interest-tank_interest app_integrity_fail = refl
is_tank_interest-tank_interest disconnect = refl
is_tank_interest-tank_interest battle_join = refl
is_tank_interest-tank_interest battle_event = refl
is_tank_interest-tank_interest use_door = refl
is_tank_interest-tank_interest send_parental = refl
is_tank_interest-tank_interest gone_fishin = refl
is_tank_interest-tank_interest steam = refl
is_tank_interest-tank_interest pet_battle = refl
is_tank_interest-tank_interest npc = refl
is_tank_interest-tank_interest special = refl
is_tank_interest-tank_interest send_particle_effect_v2 = refl
is_tank_interest-tank_interest activate_arrow_to_item = refl
is_tank_interest-tank_interest select_tile_index = refl
is_tank_interest-tank_interest send_player_tribute_data = refl
is_tank_interest-tank_interest ftue_set_item_to_quick_inventory = refl
is_tank_interest-tank_interest pve_npc = refl
is_tank_interest-tank_interest pvp_card_battle = refl
is_tank_interest-tank_interest pve_apply_player_damage = refl
is_tank_interest-tank_interest pve_npc_position_update = refl
is_tank_interest-tank_interest set_extra_mods = refl
is_tank_interest-tank_interest on_step_tile_mod = refl

-- Two tank packet types with one interest type are one type.
pub tank_interest_injective : (t u : TankType) → tank_interest t ≡ tank_interest u → t ≡ u
tank_interest_injective t u e = ok_injective (
    sym (parse_tank_type-tank_code t)
    ∙ ap parse_tank_type (omega (arith, tank_interest-tank_code t, tank_interest-tank_code u, e))
    ∙ parse_tank_type-tank_code u)
