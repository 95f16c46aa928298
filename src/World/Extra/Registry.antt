-- ===== src/World/Extra/Registry.antt =====
-- gtools/core/growtopia/world.py: `_TILE_EXTRA_REGISTRY`, the reader of each type of tile extra.
use gtools.Prelude.{ℕ, [], ◌∷◌}
use gtools.Python.Exec.{Exec, pure, ◌>>=◌}
use gtools.Python.Dict.{Dict}
use gtools.Buffer.Raw.{Buffer}
use gtools.World.Extra.Signs
use gtools.World.Extra.Labels
use gtools.World.Extra.Counters
use gtools.World.Extra.Shops
use gtools.World.Extra.Clothes
use gtools.World.Extra.Portraits
use gtools.World.Extra.Machines
use gtools.World.Extra.Weather
use gtools.World.Extra.Fish
use gtools.World.Extra.Pets
use gtools.World.Extra.Stores
use gtools.World.Extra.Locks
use gtools.World.Extra.Guilds
use gtools.World.Extra.Engines
use gtools.World.Extra.Blocks
use gtools.World.Extra.Npcs
use gtools.World.Extra.Bodies
use gtools.World.Extra.Bodies.{TileExtraBody, class_type, serialize_body, BodyFits}

abbrev as_body : {A : Type 0} → (A → TileExtraBody) → Exec Buffer A → Exec Buffer TileExtraBody
as_body f r = r >>= λ x. pure (f x)

unfoldable pub registry : ℕ → ℕ → Dict ℕ (Exec Buffer TileExtraBody)
registry fg version =
    (0x1, as_body Bodies.door_tile Signs.deserialize_door_tile)
    ∷ (0x2, as_body Bodies.sign_tile Signs.deserialize_sign_tile)
    ∷ (0x3, as_body Bodies.lock_tile (Locks.deserialize_lock_tile version))
    ∷ (0x4, as_body Bodies.seed_tile Counters.deserialize_seed_tile)
    ∷ (0x5, pure Bodies.scroll_bulletin_tile)
    ∷ (0x6, as_body Bodies.mailbox_tile Signs.deserialize_mailbox_tile)
    ∷ (0x7, as_body Bodies.bulletin_tile Signs.deserialize_bulletin_tile)
    ∷ (0x8, as_body Bodies.dice_tile Counters.deserialize_dice_tile)
    ∷ (0x9, as_body Bodies.provider_tile (Counters.deserialize_provider_tile fg version))
    ∷ (0xa, as_body Bodies.achievement_block_tile Counters.deserialize_achievement_block_tile)
    ∷ (0xb, as_body Bodies.heart_monitor_tile Labels.deserialize_heart_monitor_tile)
    ∷ (0xc, as_body Bodies.donation_box_tile Signs.deserialize_donation_box_tile)
    ∷ (0xd, as_body Bodies.stuff_for_toys_tile Signs.deserialize_stuff_for_toys_tile)
    ∷ (0xe, as_body Bodies.mannequin_tile Clothes.deserialize_mannequin_tile)
    ∷ (0xf, as_body Bodies.bunny_egg_tile Counters.deserialize_bunny_egg_tile)
    ∷ (0x10, as_body Bodies.team_tile Counters.deserialize_team_tile)
    ∷ (0x11, pure Bodies.game_generator_tile)
    ∷ (0x12, as_body Bodies.xenonite_crystal_tile Counters.deserialize_xenonite_crystal_tile)
    ∷ (0x13, as_body Bodies.phone_booth_tile Clothes.deserialize_phone_booth_tile)
    ∷ (0x14, as_body Bodies.crystal_tile Labels.deserialize_crystal_tile)
    ∷ (0x15, as_body Bodies.crime_in_progress_tile Labels.deserialize_crime_in_progress_tile)
    ∷ (0x17, as_body Bodies.display_block_tile Shops.deserialize_display_block_tile)
    ∷ (0x18, as_body Bodies.vending_machine_tile Shops.deserialize_vending_machine_tile)
    ∷ (0x1c, as_body Bodies.giving_tree_tile Shops.deserialize_giving_tree_tile)
    ∷ (0x21, as_body Bodies.country_flag_tile Labels.deserialize_country_flag_tile)
    ∷ (0x28, as_body Bodies.weather_machine_tile Shops.deserialize_weather_machine_tile)
    ∷ (0x2a, as_body Bodies.data_bedrock_tile (Guilds.deserialize_data_bedrock_tile version))
    ∷ (0x16, pure Bodies.spotlight_tile)
    ∷ (0x19, as_body Bodies.fish_tank_port_tile Fish.deserialize_fish_tank_port_tile)
    ∷ (0x1a, as_body Bodies.solar_collector_tile Shops.deserialize_solar_collector_tile)
    ∷ (0x1b, as_body Bodies.forge_tile Machines.deserialize_forge_tile)
    ∷ (0x1e, as_body Bodies.steam_organ_tile Machines.deserialize_steam_organ_tile)
    ∷ (0x1f, as_body Bodies.silkworm_tile Pets.deserialize_silkworm_tile)
    ∷ (0x20, as_body Bodies.sewing_machine_tile Machines.deserialize_sewing_machine_tile)
    ∷ (0x22, pure Bodies.lobster_trap_tile)
    ∷ (0x23, as_body Bodies.painting_easel_tile Labels.deserialize_painting_easel_tile)
    ∷ (0x24, as_body Bodies.pet_battle_cage_tile Pets.deserialize_pet_battle_cage_tile)
    ∷ (0x25, as_body Bodies.pet_trainer_tile Pets.deserialize_pet_trainer_tile)
    ∷ (0x26, as_body Bodies.steam_engine_tile Machines.deserialize_steam_engine_tile)
    ∷ (0x27, as_body Bodies.lock_bot_tile Machines.deserialize_lock_bot_tile)
    ∷ (0x29, as_body Bodies.spirit_storage_unit_tile Machines.deserialize_spirit_storage_unit_tile)
    ∷ (0x2b, as_body Bodies.shelf_tile Shops.deserialize_shelf_tile)
    ∷ (0x2c, as_body Bodies.vip_entrance_tile Locks.deserialize_vip_entrance_tile)
    ∷ (0x2d, pure Bodies.challenge_timer_tile)
    ∷ (0x2f, as_body Bodies.fish_wall_mount_tile Fish.deserialize_fish_wall_mount_tile)
    ∷ (0x30, as_body Bodies.portrait_tile (Portraits.deserialize_portrait_tile version))
    ∷ (
      0x31,
      as_body Bodies.guild_weather_machine_tile Weather.deserialize_guild_weather_machine_tile,
    )
    ∷ (0x32, as_body Bodies.fossil_prep_station_tile Weather.deserialize_fossil_prep_station_tile)
    ∷ (0x33, pure Bodies.dna_extractor_tile)
    ∷ (0x34, pure Bodies.blaster_tile)
    ∷ (0x35, as_body Bodies.chemsynth_tank_tile Machines.deserialize_chemsynth_tank_tile)
    ∷ (0x36, as_body Bodies.storage_block_tile Stores.deserialize_storage_block_tile)
    ∷ (0x37, as_body Bodies.cooking_oven_tile (Stores.deserialize_cooking_oven_tile version))
    ∷ (0x38, as_body Bodies.audio_rack_tile Labels.deserialize_audio_rack_tile)
    ∷ (0x39, as_body Bodies.geiger_charger_tile Weather.deserialize_geiger_charger_tile)
    ∷ (0x3a, pure Bodies.adventure_begins_tile)
    ∷ (0x3b, pure Bodies.tomb_robber_tile)
    ∷ (0x3c, as_body Bodies.balloon_o_matic_tile Weather.deserialize_balloon_o_matic_tile)
    ∷ (0x3d, as_body Bodies.training_port_tile Fish.deserialize_training_port_tile)
    ∷ (0x3e, as_body Bodies.item_sucker_tile Weather.deserialize_item_sucker_tile)
    ∷ (0x3f, as_body Bodies.cybot_tile Stores.deserialize_cybot_tile)
    ∷ (0x41, as_body Bodies.guild_item_tile (Guilds.deserialize_guild_item_tile fg))
    ∷ (0x42, as_body Bodies.growscan_tile Blocks.deserialize_growscan_tile)
    ∷ (
      0x43,
      as_body Bodies.containment_field_power_node_tile
          Blocks.deserialize_containment_field_power_node_tile,
    )
    ∷ (0x44, as_body Bodies.spirit_board_tile Blocks.deserialize_spirit_board_tile)
    ∷ (
      0x45,
      as_body Bodies.tesseract_manipulator_tile
          (Engines.deserialize_tesseract_manipulator_tile version),
    )
    ∷ (0x46, as_body Bodies.heart_of_gaia_tile (Engines.deserialize_heart_of_gaia_tile version))
    ∷ (
      0x47,
      as_body Bodies.techno_organic_engine_tile
          (Engines.deserialize_techno_organic_engine_tile version),
    )
    ∷ (0x48, as_body Bodies.stormy_cloud_tile Weather.deserialize_stormy_cloud_tile)
    ∷ (0x49, as_body Bodies.temporary_platform_tile Blocks.deserialize_temporary_platform_tile)
    ∷ (0x4a, pure Bodies.safe_vault_tile)
    ∷ (
      0x4b,
      as_body Bodies.angelic_counting_cloud_tile Labels.deserialize_angelic_counting_cloud_tile,
    )
    ∷ (0x4c, as_body Bodies.pve_npc_tile Npcs.deserialize_pve_npc_tile)
    ∷ (
      0x4d,
      as_body Bodies.infinity_weather_machine_tile
          Weather.deserialize_infinity_weather_machine_tile,
    )
    ∷ (0x4e, as_body Bodies.completionist_tile Blocks.deserialize_completionist_tile)
    ∷ (0x4f, as_body Bodies.pineapple_guzzler_tile Blocks.deserialize_pineapple_guzzler_tile)
    ∷ (
      0x50,
      as_body Bodies.kranken_galatic_block_tile Blocks.deserialize_kranken_galatic_block_tile,
    )
    ∷ (0x51, as_body Bodies.friends_entrance_tile Locks.deserialize_friends_entrance_tile)
    ∷ []
