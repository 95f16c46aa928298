-- ===== src/Packet/Types.antt =====
-- `NetType` and `TankType`, their numbers and their members in order of number.
use gtools.Prelude.{ℕ, List, [], ◌∷◌}
use gtools.Python.Exec.{Result}
use gtools.Python.Enums.{by_value}

pub data NetType : Type 0 where
  unknown server_hello generic_text game_message tank_packet error track client_log_request :
      NetType
  client_log_response sync_client_position write_to_ring_buffer : NetType

abbrev pub net_code : NetType → ℕ
net_code unknown = 0
net_code server_hello = 1
net_code generic_text = 2
net_code game_message = 3
net_code tank_packet = 4
net_code error = 5
net_code track = 6
net_code client_log_request = 7
net_code client_log_response = 8
net_code sync_client_position = 9
net_code write_to_ring_buffer = 10

abbrev net_types : List NetType
net_types =
    unknown ∷ server_hello ∷ generic_text ∷ game_message ∷ tank_packet ∷ error ∷ track
    ∷ client_log_request ∷ client_log_response ∷ sync_client_position ∷ write_to_ring_buffer ∷ []

unfoldable pub parse_net_type : ℕ → Result NetType
unfolding by_value
parse_net_type = by_value net_code net_types

pub data TankType : Type 0 where
  state call_function update_status tile_change_request send_map_data send_tile_update_data :
      TankType
  send_tile_update_data_multiple tile_activate_request tile_apply_damage send_inventory_state :
      TankType
  item_activate_request item_activate_object_request send_tile_tree_state modify_item_inventory :
      TankType
  item_change_object send_lock send_item_database_data send_particle_effect set_icon_state :
      TankType
  item_effect set_character_state ping_reply ping_request got_punched app_check_response : TankType
  app_integrity_fail disconnect battle_join battle_event use_door send_parental gone_fishin steam :
      TankType
  pet_battle npc special send_particle_effect_v2 activate_arrow_to_item select_tile_index : TankType
  send_player_tribute_data ftue_set_item_to_quick_inventory pve_npc pvp_card_battle : TankType
  pve_apply_player_damage pve_npc_position_update set_extra_mods on_step_tile_mod : TankType

abbrev pub tank_code : TankType → ℕ
tank_code state = 0
tank_code call_function = 1
tank_code update_status = 2
tank_code tile_change_request = 3
tank_code send_map_data = 4
tank_code send_tile_update_data = 5
tank_code send_tile_update_data_multiple = 6
tank_code tile_activate_request = 7
tank_code tile_apply_damage = 8
tank_code send_inventory_state = 9
tank_code item_activate_request = 10
tank_code item_activate_object_request = 11
tank_code send_tile_tree_state = 12
tank_code modify_item_inventory = 13
tank_code item_change_object = 14
tank_code send_lock = 15
tank_code send_item_database_data = 16
tank_code send_particle_effect = 17
tank_code set_icon_state = 18
tank_code item_effect = 19
tank_code set_character_state = 20
tank_code ping_reply = 21
tank_code ping_request = 22
tank_code got_punched = 23
tank_code app_check_response = 24
tank_code app_integrity_fail = 25
tank_code disconnect = 26
tank_code battle_join = 27
tank_code battle_event = 28
tank_code use_door = 29
tank_code send_parental = 30
tank_code gone_fishin = 31
tank_code steam = 32
tank_code pet_battle = 33
tank_code npc = 34
tank_code special = 35
tank_code send_particle_effect_v2 = 36
tank_code activate_arrow_to_item = 37
tank_code select_tile_index = 38
tank_code send_player_tribute_data = 39
tank_code ftue_set_item_to_quick_inventory = 40
tank_code pve_npc = 41
tank_code pvp_card_battle = 42
tank_code pve_apply_player_damage = 43
tank_code pve_npc_position_update = 44
tank_code set_extra_mods = 45
tank_code on_step_tile_mod = 46

abbrev tank_types : List TankType
tank_types =
    state ∷ call_function ∷ update_status ∷ tile_change_request ∷ send_map_data
    ∷ send_tile_update_data ∷ send_tile_update_data_multiple ∷ tile_activate_request
    ∷ tile_apply_damage ∷ send_inventory_state ∷ item_activate_request
    ∷ item_activate_object_request ∷ send_tile_tree_state ∷ modify_item_inventory
    ∷ item_change_object ∷ send_lock ∷ send_item_database_data ∷ send_particle_effect
    ∷ set_icon_state ∷ item_effect ∷ set_character_state ∷ ping_reply ∷ ping_request ∷ got_punched
    ∷ app_check_response ∷ app_integrity_fail ∷ disconnect ∷ battle_join ∷ battle_event ∷ use_door
    ∷ send_parental ∷ gone_fishin ∷ steam ∷ pet_battle ∷ npc ∷ special ∷ send_particle_effect_v2
    ∷ activate_arrow_to_item ∷ select_tile_index ∷ send_player_tribute_data
    ∷ ftue_set_item_to_quick_inventory ∷ pve_npc ∷ pvp_card_battle ∷ pve_apply_player_damage
    ∷ pve_npc_position_update ∷ set_extra_mods ∷ on_step_tile_mod ∷ []

unfoldable pub parse_tank_type : ℕ → Result TankType
unfolding by_value
parse_tank_type = by_value tank_code tank_types
