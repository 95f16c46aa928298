-- ===== src/Broker/Interests.antt =====
-- The interest types of gtools/proto/extension.proto that name packets, and the interest type of
-- each packet type. An enumeration of protobuf is open: its values are numbers.
use gtools.Prelude.{ℕ, List, [], ◌∷◌, Bool, false, ◌==◌, ◌||◌}
use gtools.Python.Exec.{Result, ok, err, key_error}
use gtools.Packet.Types.{
  NetType, TankType, server_hello, generic_text, game_message, tank_packet, error, track,
  client_log_request, client_log_response, state, call_function, update_status, tile_change_request,
  send_map_data, send_tile_update_data, send_tile_update_data_multiple, tile_activate_request,
  tile_apply_damage, send_inventory_state, item_activate_request, item_activate_object_request,
  send_tile_tree_state, modify_item_inventory, item_change_object, send_lock,
  send_item_database_data, send_particle_effect, set_icon_state, item_effect, set_character_state,
  ping_reply, ping_request, got_punched, app_check_response, app_integrity_fail, disconnect,
  battle_join, battle_event, use_door, send_parental, gone_fishin, steam, pet_battle, npc, special,
  send_particle_effect_v2, activate_arrow_to_item, select_tile_index, send_player_tribute_data,
  ftue_set_item_to_quick_inventory, pve_npc, pvp_card_battle, pve_apply_player_damage,
  pve_npc_position_update, set_extra_mods, on_step_tile_mod,
}

abbrev pub InterestType : Type 0
InterestType = ℕ

abbrev pub interest_peer_connect : InterestType
interest_peer_connect = 1

abbrev pub interest_peer_disconnect : InterestType
interest_peer_disconnect = 2

abbrev pub interest_server_hello : InterestType
interest_server_hello = 3

abbrev pub interest_generic_text : InterestType
interest_generic_text = 4

abbrev pub interest_game_message : InterestType
interest_game_message = 5

abbrev pub interest_tank_packet : InterestType
interest_tank_packet = 6

abbrev pub interest_error : InterestType
interest_error = 7

abbrev pub interest_track : InterestType
interest_track = 8

abbrev pub interest_client_log_request : InterestType
interest_client_log_request = 9

abbrev pub interest_client_log_response : InterestType
interest_client_log_response = 10

abbrev pub interest_state : InterestType
interest_state = 11

abbrev pub interest_call_function : InterestType
interest_call_function = 12

abbrev pub interest_update_status : InterestType
interest_update_status = 13

abbrev pub interest_tile_change_request : InterestType
interest_tile_change_request = 14

abbrev pub interest_send_map_data : InterestType
interest_send_map_data = 15

abbrev pub interest_send_tile_update_data : InterestType
interest_send_tile_update_data = 16

abbrev pub interest_send_tile_update_data_multiple : InterestType
interest_send_tile_update_data_multiple = 17

abbrev pub interest_tile_activate_request : InterestType
interest_tile_activate_request = 18

abbrev pub interest_tile_apply_damage : InterestType
interest_tile_apply_damage = 19

abbrev pub interest_send_inventory_state : InterestType
interest_send_inventory_state = 20

abbrev pub interest_item_activate_request : InterestType
interest_item_activate_request = 21

abbrev pub interest_item_activate_object_request : InterestType
interest_item_activate_object_request = 22

abbrev pub interest_send_tile_tree_state : InterestType
interest_send_tile_tree_state = 23

abbrev pub interest_modify_item_inventory : InterestType
interest_modify_item_inventory = 24

abbrev pub interest_item_change_object : InterestType
interest_item_change_object = 25

abbrev pub interest_send_lock : InterestType
interest_send_lock = 26

abbrev pub interest_send_item_database_data : InterestType
interest_send_item_database_data = 27

abbrev pub interest_send_particle_effect : InterestType
interest_send_particle_effect = 28

abbrev pub interest_set_icon_state : InterestType
interest_set_icon_state = 29

abbrev pub interest_item_effect : InterestType
interest_item_effect = 30

abbrev pub interest_set_character_state : InterestType
interest_set_character_state = 31

abbrev pub interest_ping_reply : InterestType
interest_ping_reply = 32

abbrev pub interest_ping_request : InterestType
interest_ping_request = 33

abbrev pub interest_got_punched : InterestType
interest_got_punched = 34

abbrev pub interest_app_check_response : InterestType
interest_app_check_response = 35

abbrev pub interest_app_integrity_fail : InterestType
interest_app_integrity_fail = 36

abbrev pub interest_disconnect : InterestType
interest_disconnect = 37

abbrev pub interest_battle_join : InterestType
interest_battle_join = 38

abbrev pub interest_battle_event : InterestType
interest_battle_event = 39

abbrev pub interest_use_door : InterestType
interest_use_door = 40

abbrev pub interest_send_parental : InterestType
interest_send_parental = 41

abbrev pub interest_gone_fishin : InterestType
interest_gone_fishin = 42

abbrev pub interest_steam : InterestType
interest_steam = 43

abbrev pub interest_pet_battle : InterestType
interest_pet_battle = 44

abbrev pub interest_npc : InterestType
interest_npc = 45

abbrev pub interest_special : InterestType
interest_special = 46

abbrev pub interest_send_particle_effect_v2 : InterestType
interest_send_particle_effect_v2 = 47

abbrev pub interest_activate_arrow_to_item : InterestType
interest_activate_arrow_to_item = 48

abbrev pub interest_select_tile_index : InterestType
interest_select_tile_index = 49

abbrev pub interest_send_player_tribute_data : InterestType
interest_send_player_tribute_data = 50

abbrev pub interest_ftue_set_item_to_quick_inventory : InterestType
interest_ftue_set_item_to_quick_inventory = 51

abbrev pub interest_pve_npc : InterestType
interest_pve_npc = 52

abbrev pub interest_pvp_card_battle : InterestType
interest_pvp_card_battle = 53

abbrev pub interest_pve_apply_player_damage : InterestType
interest_pve_apply_player_damage = 54

abbrev pub interest_pve_npc_position_update : InterestType
interest_pve_npc_position_update = 55

abbrev pub interest_set_extra_mods : InterestType
interest_set_extra_mods = 56

abbrev pub interest_on_step_tile_mod : InterestType
interest_on_step_tile_mod = 57

-- NETPACKET_TO_INTEREST_TYPE: a type that it lacks is a KeyError.
unfoldable pub net_interest : NetType → Result InterestType
net_interest server_hello = ok interest_server_hello
net_interest generic_text = ok interest_generic_text
net_interest game_message = ok interest_game_message
net_interest tank_packet = ok interest_tank_packet
net_interest error = ok interest_error
net_interest track = ok interest_track
net_interest client_log_request = ok interest_client_log_request
net_interest client_log_response = ok interest_client_log_response
net_interest other = err key_error

-- TANKPACKET_TO_INTEREST_TYPE
unfoldable pub tank_interest : TankType → InterestType
tank_interest state = interest_state
tank_interest call_function = interest_call_function
tank_interest update_status = interest_update_status
tank_interest tile_change_request = interest_tile_change_request
tank_interest send_map_data = interest_send_map_data
tank_interest send_tile_update_data = interest_send_tile_update_data
tank_interest send_tile_update_data_multiple = interest_send_tile_update_data_multiple
tank_interest tile_activate_request = interest_tile_activate_request
tank_interest tile_apply_damage = interest_tile_apply_damage
tank_interest send_inventory_state = interest_send_inventory_state
tank_interest item_activate_request = interest_item_activate_request
tank_interest item_activate_object_request = interest_item_activate_object_request
tank_interest send_tile_tree_state = interest_send_tile_tree_state
tank_interest modify_item_inventory = interest_modify_item_inventory
tank_interest item_change_object = interest_item_change_object
tank_interest send_lock = interest_send_lock
tank_interest send_item_database_data = interest_send_item_database_data
tank_interest send_particle_effect = interest_send_particle_effect
tank_interest set_icon_state = interest_set_icon_state
tank_interest item_effect = interest_item_effect
tank_interest set_character_state = interest_set_character_state
tank_interest ping_reply = interest_ping_reply
tank_interest ping_request = interest_ping_request
tank_interest got_punched = interest_got_punched
tank_interest app_check_response = interest_app_check_response
tank_interest app_integrity_fail = interest_app_integrity_fail
tank_interest disconnect = interest_disconnect
tank_interest battle_join = interest_battle_join
tank_interest battle_event = interest_battle_event
tank_interest use_door = interest_use_door
tank_interest send_parental = interest_send_parental
tank_interest gone_fishin = interest_gone_fishin
tank_interest steam = interest_steam
tank_interest pet_battle = interest_pet_battle
tank_interest npc = interest_npc
tank_interest special = interest_special
tank_interest send_particle_effect_v2 = interest_send_particle_effect_v2
tank_interest activate_arrow_to_item = interest_activate_arrow_to_item
tank_interest select_tile_index = interest_select_tile_index
tank_interest send_player_tribute_data = interest_send_player_tribute_data
tank_interest ftue_set_item_to_quick_inventory = interest_ftue_set_item_to_quick_inventory
tank_interest pve_npc = interest_pve_npc
tank_interest pvp_card_battle = interest_pvp_card_battle
tank_interest pve_apply_player_damage = interest_pve_apply_player_damage
tank_interest pve_npc_position_update = interest_pve_npc_position_update
tank_interest set_extra_mods = interest_set_extra_mods
tank_interest on_step_tile_mod = interest_on_step_tile_mod

-- TANK_INTEREST
abbrev pub tank_interests : List InterestType
tank_interests =
    interest_state ∷ interest_call_function ∷ interest_update_status ∷ interest_tile_change_request
    ∷ interest_send_map_data ∷ interest_send_tile_update_data
    ∷ interest_send_tile_update_data_multiple ∷ interest_tile_activate_request
    ∷ interest_tile_apply_damage ∷ interest_send_inventory_state ∷ interest_item_activate_request
    ∷ interest_item_activate_object_request ∷ interest_send_tile_tree_state
    ∷ interest_modify_item_inventory ∷ interest_item_change_object ∷ interest_send_lock
    ∷ interest_send_item_database_data ∷ interest_send_particle_effect ∷ interest_set_icon_state
    ∷ interest_item_effect ∷ interest_set_character_state ∷ interest_ping_reply
    ∷ interest_ping_request ∷ interest_got_punched ∷ interest_app_check_response
    ∷ interest_app_integrity_fail ∷ interest_disconnect ∷ interest_battle_join
    ∷ interest_battle_event ∷ interest_use_door ∷ interest_send_parental ∷ interest_gone_fishin
    ∷ interest_steam ∷ interest_pet_battle ∷ interest_npc ∷ interest_special
    ∷ interest_send_particle_effect_v2 ∷ interest_activate_arrow_to_item
    ∷ interest_select_tile_index ∷ interest_send_player_tribute_data
    ∷ interest_ftue_set_item_to_quick_inventory ∷ interest_pve_npc ∷ interest_pvp_card_battle
    ∷ interest_pve_apply_player_damage ∷ interest_pve_npc_position_update ∷ interest_set_extra_mods
    ∷ interest_on_step_tile_mod ∷ []

abbrev pub member : ℕ → List ℕ → Bool
member n [] = false
member n (m ∷ ms) = (n == m) || member n ms

unfoldable pub is_tank_interest : InterestType → Bool
is_tank_interest i = member i tank_interests
