-- ===== src/World/Extra/Bodies.antt =====
-- gtools/core/growtopia/world.py: the classes that `_TILE_EXTRA_REGISTRY` names, the type that each
-- stands under, and their writers.
use gtools.Prelude.{ℕ}
use gtools.Python.Exec.{Exec, pure}
use gtools.Buffer.Raw.{Buffer}
use gtools.World.Extra.Signs
use gtools.World.Extra.Labels
use gtools.World.Extra.Counters
use gtools.World.Extra.Shops
use gtools.World.Extra.Clothes
use gtools.World.Extra.Portraits
use gtools.World.Extra.Machines
use gtools.World.Extra.Weather
use gtools.World.Extra.Fish
use gtools.World.Extra.Pets
use gtools.World.Extra.Stores
use gtools.World.Extra.Locks
use gtools.World.Extra.Guilds
use gtools.World.Extra.Engines
use gtools.World.Extra.Blocks
use gtools.World.Extra.Npcs

-- The fields of an extra that its class declares.
pub data TileExtraBody : Type 0 where
  scroll_bulletin_tile game_generator_tile spotlight_tile lobster_trap_tile challenge_timer_tile
        dna_extractor_tile blaster_tile adventure_begins_tile tomb_robber_tile safe_vault_tile :
      TileExtraBody
  door_tile : Signs.DoorTile → TileExtraBody
  sign_tile : Signs.SignTile → TileExtraBody
  lock_tile : Locks.LockTile → TileExtraBody
  seed_tile : Counters.SeedTile → TileExtraBody
  mailbox_tile : Signs.MailboxTile → TileExtraBody
  bulletin_tile : Signs.BulletinTile → TileExtraBody
  dice_tile : Counters.DiceTile → TileExtraBody
  provider_tile : Counters.ProviderTile → TileExtraBody
  achievement_block_tile : Counters.AchievementBlockTile → TileExtraBody
  heart_monitor_tile : Labels.HeartMonitorTile → TileExtraBody
  donation_box_tile : Signs.DonationBoxTile → TileExtraBody
  stuff_for_toys_tile : Signs.StuffForToysTile → TileExtraBody
  mannequin_tile : Clothes.MannequinTile → TileExtraBody
  bunny_egg_tile : Counters.BunnyEggTile → TileExtraBody
  team_tile : Counters.TeamTile → TileExtraBody
  xenonite_crystal_tile : Counters.XenoniteCrystalTile → TileExtraBody
  phone_booth_tile : Clothes.PhoneBoothTile → TileExtraBody
  crystal_tile : Labels.CrystalTile → TileExtraBody
  crime_in_progress_tile : Labels.CrimeInProgressTile → TileExtraBody
  display_block_tile : Shops.DisplayBlockTile → TileExtraBody
  vending_machine_tile : Shops.VendingMachineTile → TileExtraBody
  giving_tree_tile : Shops.GivingTreeTile → TileExtraBody
  country_flag_tile : Labels.CountryFlagTile → TileExtraBody
  weather_machine_tile : Shops.WeatherMachineTile → TileExtraBody
  data_bedrock_tile : Guilds.DataBedrockTile → TileExtraBody
  fish_tank_port_tile : Fish.FishTankPortTile → TileExtraBody
  solar_collector_tile : Shops.SolarCollectorTile → TileExtraBody
  forge_tile : Machines.ForgeTile → TileExtraBody
  steam_organ_tile : Machines.SteamOrganTile → TileExtraBody
  silkworm_tile : Pets.SilkwormTile → TileExtraBody
  sewing_machine_tile : Machines.SewingMachineTile → TileExtraBody
  painting_easel_tile : Labels.PaintingEaselTile → TileExtraBody
  pet_battle_cage_tile : Pets.PetBattleCageTile → TileExtraBody
  pet_trainer_tile : Pets.PetTrainerTile → TileExtraBody
  steam_engine_tile : Machines.SteamEngineTile → TileExtraBody
  lock_bot_tile : Machines.LockBotTile → TileExtraBody
  spirit_storage_unit_tile : Machines.SpiritStorageUnitTile → TileExtraBody
  shelf_tile : Shops.ShelfTile → TileExtraBody
  vip_entrance_tile : Locks.VipEntranceTile → TileExtraBody
  fish_wall_mount_tile : Fish.FishWallMountTile → TileExtraBody
  portrait_tile : Portraits.PortraitTile → TileExtraBody
  guild_weather_machine_tile : Weather.GuildWeatherMachineTile → TileExtraBody
  fossil_prep_station_tile : Weather.FossilPrepStationTile → TileExtraBody
  chemsynth_tank_tile : Machines.ChemsynthTankTile → TileExtraBody
  storage_block_tile : Stores.StorageBlockTile → TileExtraBody
  cooking_oven_tile : Stores.CookingOvenTile → TileExtraBody
  audio_rack_tile : Labels.AudioRackTile → TileExtraBody
  geiger_charger_tile : Weather.GeigerChargerTile → TileExtraBody
  balloon_o_matic_tile : Weather.BalloonOMaticTile → TileExtraBody
  training_port_tile : Fish.TrainingPortTile → TileExtraBody
  item_sucker_tile : Weather.ItemSuckerTile → TileExtraBody
  cybot_tile : Stores.CybotTile → TileExtraBody
  guild_item_tile : Guilds.GuildItemTile → TileExtraBody
  growscan_tile : Blocks.GrowscanTile → TileExtraBody
  containment_field_power_node_tile : Blocks.ContainmentFieldPowerNodeTile → TileExtraBody
  spirit_board_tile : Blocks.SpiritBoardTile → TileExtraBody
  tesseract_manipulator_tile : Engines.TesseractManipulatorTile → TileExtraBody
  heart_of_gaia_tile : Engines.HeartOfGaiaTile → TileExtraBody
  techno_organic_engine_tile : Engines.TechnoOrganicEngineTile → TileExtraBody
  stormy_cloud_tile : Weather.StormyCloudTile → TileExtraBody
  temporary_platform_tile : Blocks.TemporaryPlatformTile → TileExtraBody
  angelic_counting_cloud_tile : Labels.AngelicCountingCloudTile → TileExtraBody
  pve_npc_tile : Npcs.PveNpcTile → TileExtraBody
  infinity_weather_machine_tile : Weather.InfinityWeatherMachineTile → TileExtraBody
  completionist_tile : Blocks.CompletionistTile → TileExtraBody
  pineapple_guzzler_tile : Blocks.PineappleGuzzlerTile → TileExtraBody
  kranken_galatic_block_tile : Blocks.KrankenGalaticBlockTile → TileExtraBody
  friends_entrance_tile : Locks.FriendsEntranceTile → TileExtraBody

unfoldable pub class_type : TileExtraBody → ℕ
class_type (door_tile x) = 0x1
class_type (sign_tile x) = 0x2
class_type (lock_tile x) = 0x3
class_type (seed_tile x) = 0x4
class_type scroll_bulletin_tile = 0x5
class_type (mailbox_tile x) = 0x6
class_type (bulletin_tile x) = 0x7
class_type (dice_tile x) = 0x8
class_type (provider_tile x) = 0x9
class_type (achievement_block_tile x) = 0xa
class_type (heart_monitor_tile x) = 0xb
class_type (donation_box_tile x) = 0xc
class_type (stuff_for_toys_tile x) = 0xd
class_type (mannequin_tile x) = 0xe
class_type (bunny_egg_tile x) = 0xf
class_type (team_tile x) = 0x10
class_type game_generator_tile = 0x11
class_type (xenonite_crystal_tile x) = 0x12
class_type (phone_booth_tile x) = 0x13
class_type (crystal_tile x) = 0x14
class_type (crime_in_progress_tile x) = 0x15
class_type (display_block_tile x) = 0x17
class_type (vending_machine_tile x) = 0x18
class_type (giving_tree_tile x) = 0x1c
class_type (country_flag_tile x) = 0x21
class_type (weather_machine_tile x) = 0x28
class_type (data_bedrock_tile x) = 0x2a
class_type spotlight_tile = 0x16
class_type (fish_tank_port_tile x) = 0x19
class_type (solar_collector_tile x) = 0x1a
class_type (forge_tile x) = 0x1b
class_type (steam_organ_tile x) = 0x1e
class_type (silkworm_tile x) = 0x1f
class_type (sewing_machine_tile x) = 0x20
class_type lobster_trap_tile = 0x22
class_type (painting_easel_tile x) = 0x23
class_type (pet_battle_cage_tile x) = 0x24
class_type (pet_trainer_tile x) = 0x25
class_type (steam_engine_tile x) = 0x26
class_type (lock_bot_tile x) = 0x27
class_type (spirit_storage_unit_tile x) = 0x29
class_type (shelf_tile x) = 0x2b
class_type (vip_entrance_tile x) = 0x2c
class_type challenge_timer_tile = 0x2d
class_type (fish_wall_mount_tile x) = 0x2f
class_type (portrait_tile x) = 0x30
class_type (guild_weather_machine_tile x) = 0x31
class_type (fossil_prep_station_tile x) = 0x32
class_type dna_extractor_tile = 0x33
class_type blaster_tile = 0x34
class_type (chemsynth_tank_tile x) = 0x35
class_type (storage_block_tile x) = 0x36
class_type (cooking_oven_tile x) = 0x37
class_type (audio_rack_tile x) = 0x38
class_type (geiger_charger_tile x) = 0x39
class_type adventure_begins_tile = 0x3a
class_type tomb_robber_tile = 0x3b
class_type (balloon_o_matic_tile x) = 0x3c
class_type (training_port_tile x) = 0x3d
class_type (item_sucker_tile x) = 0x3e
class_type (cybot_tile x) = 0x3f
class_type (guild_item_tile x) = 0x41
class_type (growscan_tile x) = 0x42
class_type (containment_field_power_node_tile x) = 0x43
class_type (spirit_board_tile x) = 0x44
class_type (tesseract_manipulator_tile x) = 0x45
class_type (heart_of_gaia_tile x) = 0x46
class_type (techno_organic_engine_tile x) = 0x47
class_type (stormy_cloud_tile x) = 0x48
class_type (temporary_platform_tile x) = 0x49
class_type safe_vault_tile = 0x4a
class_type (angelic_counting_cloud_tile x) = 0x4b
class_type (pve_npc_tile x) = 0x4c
class_type (infinity_weather_machine_tile x) = 0x4d
class_type (completionist_tile x) = 0x4e
class_type (pineapple_guzzler_tile x) = 0x4f
class_type (kranken_galatic_block_tile x) = 0x50
class_type (friends_entrance_tile x) = 0x51

-- `int__serialize_into`
unfoldable pub serialize_body : ℕ → ℕ → TileExtraBody → Exec Buffer Unit
serialize_body fg version (door_tile x) = Signs.serialize_door_tile x
serialize_body fg version (sign_tile x) = Signs.serialize_sign_tile x
serialize_body fg version (lock_tile x) = Locks.serialize_lock_tile version x
serialize_body fg version (seed_tile x) = Counters.serialize_seed_tile x
serialize_body fg version scroll_bulletin_tile = pure tt
serialize_body fg version (mailbox_tile x) = Signs.serialize_mailbox_tile x
serialize_body fg version (bulletin_tile x) = Signs.serialize_bulletin_tile x
serialize_body fg version (dice_tile x) = Counters.serialize_dice_tile x
serialize_body fg version (provider_tile x) = Counters.serialize_provider_tile fg version x
serialize_body fg version (achievement_block_tile x) = Counters.serialize_achievement_block_tile x
serialize_body fg version (heart_monitor_tile x) = Labels.serialize_heart_monitor_tile x
serialize_body fg version (donation_box_tile x) = Signs.serialize_donation_box_tile x
serialize_body fg version (stuff_for_toys_tile x) = Signs.serialize_stuff_for_toys_tile x
serialize_body fg version (mannequin_tile x) = Clothes.serialize_mannequin_tile x
serialize_body fg version (bunny_egg_tile x) = Counters.serialize_bunny_egg_tile x
serialize_body fg version (team_tile x) = Counters.serialize_team_tile x
serialize_body fg version game_generator_tile = pure tt
serialize_body fg version (xenonite_crystal_tile x) = Counters.serialize_xenonite_crystal_tile x
serialize_body fg version (phone_booth_tile x) = Clothes.serialize_phone_booth_tile x
serialize_body fg version (crystal_tile x) = Labels.serialize_crystal_tile x
serialize_body fg version (crime_in_progress_tile x) = Labels.serialize_crime_in_progress_tile x
serialize_body fg version (display_block_tile x) = Shops.serialize_display_block_tile x
serialize_body fg version (vending_machine_tile x) = Shops.serialize_vending_machine_tile x
serialize_body fg version (giving_tree_tile x) = Shops.serialize_giving_tree_tile x
serialize_body fg version (country_flag_tile x) = Labels.serialize_country_flag_tile x
serialize_body fg version (weather_machine_tile x) = Shops.serialize_weather_machine_tile x
serialize_body fg version (data_bedrock_tile x) = Guilds.serialize_data_bedrock_tile version x
serialize_body fg version spotlight_tile = pure tt
serialize_body fg version (fish_tank_port_tile x) = Fish.serialize_fish_tank_port_tile x
serialize_body fg version (solar_collector_tile x) = Shops.serialize_solar_collector_tile x
serialize_body fg version (forge_tile x) = Machines.serialize_forge_tile x
serialize_body fg version (steam_organ_tile x) = Machines.serialize_steam_organ_tile x
serialize_body fg version (silkworm_tile x) = Pets.serialize_silkworm_tile x
serialize_body fg version (sewing_machine_tile x) = Machines.serialize_sewing_machine_tile x
serialize_body fg version lobster_trap_tile = pure tt
serialize_body fg version (painting_easel_tile x) = Labels.serialize_painting_easel_tile x
serialize_body fg version (pet_battle_cage_tile x) = Pets.serialize_pet_battle_cage_tile x
serialize_body fg version (pet_trainer_tile x) = Pets.serialize_pet_trainer_tile x
serialize_body fg version (steam_engine_tile x) = Machines.serialize_steam_engine_tile x
serialize_body fg version (lock_bot_tile x) = Machines.serialize_lock_bot_tile x
serialize_body fg version (spirit_storage_unit_tile x) =
    Machines.serialize_spirit_storage_unit_tile x
serialize_body fg version (shelf_tile x) = Shops.serialize_shelf_tile x
serialize_body fg version (vip_entrance_tile x) = Locks.serialize_vip_entrance_tile x
serialize_body fg version challenge_timer_tile = pure tt
serialize_body fg version (fish_wall_mount_tile x) = Fish.serialize_fish_wall_mount_tile x
serialize_body fg version (portrait_tile x) = Portraits.serialize_portrait_tile version x
serialize_body fg version (guild_weather_machine_tile x) =
    Weather.serialize_guild_weather_machine_tile x
serialize_body fg version (fossil_prep_station_tile x) =
    Weather.serialize_fossil_prep_station_tile x
serialize_body fg version dna_extractor_tile = pure tt
serialize_body fg version blaster_tile = pure tt
serialize_body fg version (chemsynth_tank_tile x) = Machines.serialize_chemsynth_tank_tile x
serialize_body fg version (storage_block_tile x) = Stores.serialize_storage_block_tile x
serialize_body fg version (cooking_oven_tile x) = Stores.serialize_cooking_oven_tile version x
serialize_body fg version (audio_rack_tile x) = Labels.serialize_audio_rack_tile x
serialize_body fg version (geiger_charger_tile x) = Weather.serialize_geiger_charger_tile x
serialize_body fg version adventure_begins_tile = pure tt
serialize_body fg version tomb_robber_tile = pure tt
serialize_body fg version (balloon_o_matic_tile x) = Weather.serialize_balloon_o_matic_tile x
serialize_body fg version (training_port_tile x) = Fish.serialize_training_port_tile x
serialize_body fg version (item_sucker_tile x) = Weather.serialize_item_sucker_tile x
serialize_body fg version (cybot_tile x) = Stores.serialize_cybot_tile x
serialize_body fg version (guild_item_tile x) = Guilds.serialize_guild_item_tile fg x
serialize_body fg version (growscan_tile x) = Blocks.serialize_growscan_tile x
serialize_body fg version (containment_field_power_node_tile x) =
    Blocks.serialize_containment_field_power_node_tile x
serialize_body fg version (spirit_board_tile x) = Blocks.serialize_spirit_board_tile x
serialize_body fg version (tesseract_manipulator_tile x) =
    Engines.serialize_tesseract_manipulator_tile version x
serialize_body fg version (heart_of_gaia_tile x) = Engines.serialize_heart_of_gaia_tile version x
serialize_body fg version (techno_organic_engine_tile x) =
    Engines.serialize_techno_organic_engine_tile version x
serialize_body fg version (stormy_cloud_tile x) = Weather.serialize_stormy_cloud_tile x
serialize_body fg version (temporary_platform_tile x) = Blocks.serialize_temporary_platform_tile x
serialize_body fg version safe_vault_tile = pure tt
serialize_body fg version (angelic_counting_cloud_tile x) =
    Labels.serialize_angelic_counting_cloud_tile x
serialize_body fg version (pve_npc_tile x) = Npcs.serialize_pve_npc_tile x
serialize_body fg version (infinity_weather_machine_tile x) =
    Weather.serialize_infinity_weather_machine_tile x
serialize_body fg version (completionist_tile x) = Blocks.serialize_completionist_tile x
serialize_body fg version (pineapple_guzzler_tile x) = Blocks.serialize_pineapple_guzzler_tile x
serialize_body fg version (kranken_galatic_block_tile x) =
    Blocks.serialize_kranken_galatic_block_tile x
serialize_body fg version (friends_entrance_tile x) = Locks.serialize_friends_entrance_tile x

-- The fields fit the formats they are written in.
unfoldable pub BodyFits : ℕ → ℕ → TileExtraBody → Type 0
BodyFits fg version (door_tile x) = Signs.DoorTileFits x
BodyFits fg version (sign_tile x) = Signs.SignTileFits x
BodyFits fg version (lock_tile x) = Locks.LockTileFits version x
BodyFits fg version (seed_tile x) = Counters.SeedTileFits x
BodyFits fg version scroll_bulletin_tile = Unit
BodyFits fg version (mailbox_tile x) = Signs.MailboxTileFits x
BodyFits fg version (bulletin_tile x) = Signs.BulletinTileFits x
BodyFits fg version (dice_tile x) = Counters.DiceTileFits x
BodyFits fg version (provider_tile x) = Counters.ProviderTileFits fg version x
BodyFits fg version (achievement_block_tile x) = Counters.AchievementBlockTileFits x
BodyFits fg version (heart_monitor_tile x) = Labels.HeartMonitorTileFits x
BodyFits fg version (donation_box_tile x) = Signs.DonationBoxTileFits x
BodyFits fg version (stuff_for_toys_tile x) = Signs.StuffForToysTileFits x
BodyFits fg version (mannequin_tile x) = Clothes.MannequinTileFits x
BodyFits fg version (bunny_egg_tile x) = Counters.BunnyEggTileFits x
BodyFits fg version (team_tile x) = Counters.TeamTileFits x
BodyFits fg version game_generator_tile = Unit
BodyFits fg version (xenonite_crystal_tile x) = Counters.XenoniteCrystalTileFits x
BodyFits fg version (phone_booth_tile x) = Clothes.PhoneBoothTileFits x
BodyFits fg version (crystal_tile x) = Labels.CrystalTileFits x
BodyFits fg version (crime_in_progress_tile x) = Labels.CrimeInProgressTileFits x
BodyFits fg version (display_block_tile x) = Shops.DisplayBlockTileFits x
BodyFits fg version (vending_machine_tile x) = Shops.VendingMachineTileFits x
BodyFits fg version (giving_tree_tile x) = Shops.GivingTreeTileFits x
BodyFits fg version (country_flag_tile x) = Labels.CountryFlagTileFits x
BodyFits fg version (weather_machine_tile x) = Shops.WeatherMachineTileFits x
BodyFits fg version (data_bedrock_tile x) = Guilds.DataBedrockTileFits version x
BodyFits fg version spotlight_tile = Unit
BodyFits fg version (fish_tank_port_tile x) = Fish.FishTankPortTileFits x
BodyFits fg version (solar_collector_tile x) = Shops.SolarCollectorTileFits x
BodyFits fg version (forge_tile x) = Machines.ForgeTileFits x
BodyFits fg version (steam_organ_tile x) = Machines.SteamOrganTileFits x
BodyFits fg version (silkworm_tile x) = Pets.SilkwormTileFits x
BodyFits fg version (sewing_machine_tile x) = Machines.SewingMachineTileFits x
BodyFits fg version lobster_trap_tile = Unit
BodyFits fg version (painting_easel_tile x) = Labels.PaintingEaselTileFits x
BodyFits fg version (pet_battle_cage_tile x) = Pets.PetBattleCageTileFits x
BodyFits fg version (pet_trainer_tile x) = Pets.PetTrainerTileFits x
BodyFits fg version (steam_engine_tile x) = Machines.SteamEngineTileFits x
BodyFits fg version (lock_bot_tile x) = Machines.LockBotTileFits x
BodyFits fg version (spirit_storage_unit_tile x) = Machines.SpiritStorageUnitTileFits x
BodyFits fg version (shelf_tile x) = Shops.ShelfTileFits x
BodyFits fg version (vip_entrance_tile x) = Locks.VipEntranceTileFits x
BodyFits fg version challenge_timer_tile = Unit
BodyFits fg version (fish_wall_mount_tile x) = Fish.FishWallMountTileFits x
BodyFits fg version (portrait_tile x) = Portraits.PortraitTileFits version x
BodyFits fg version (guild_weather_machine_tile x) = Weather.GuildWeatherMachineTileFits x
BodyFits fg version (fossil_prep_station_tile x) = Weather.FossilPrepStationTileFits x
BodyFits fg version dna_extractor_tile = Unit
BodyFits fg version blaster_tile = Unit
BodyFits fg version (chemsynth_tank_tile x) = Machines.ChemsynthTankTileFits x
BodyFits fg version (storage_block_tile x) = Stores.StorageBlockTileFits x
BodyFits fg version (cooking_oven_tile x) = Stores.CookingOvenTileFits version x
BodyFits fg version (audio_rack_tile x) = Labels.AudioRackTileFits x
BodyFits fg version (geiger_charger_tile x) = Weather.GeigerChargerTileFits x
BodyFits fg version adventure_begins_tile = Unit
BodyFits fg version tomb_robber_tile = Unit
BodyFits fg version (balloon_o_matic_tile x) = Weather.BalloonOMaticTileFits x
BodyFits fg version (training_port_tile x) = Fish.TrainingPortTileFits x
BodyFits fg version (item_sucker_tile x) = Weather.ItemSuckerTileFits x
BodyFits fg version (cybot_tile x) = Stores.CybotTileFits x
BodyFits fg version (guild_item_tile x) = Guilds.GuildItemTileFits fg x
BodyFits fg version (growscan_tile x) = Blocks.GrowscanTileFits x
BodyFits fg version (containment_field_power_node_tile x) =
    Blocks.ContainmentFieldPowerNodeTileFits x
BodyFits fg version (spirit_board_tile x) = Blocks.SpiritBoardTileFits x
BodyFits fg version (tesseract_manipulator_tile x) = Engines.TesseractManipulatorTileFits version x
BodyFits fg version (heart_of_gaia_tile x) = Engines.HeartOfGaiaTileFits version x
BodyFits fg version (techno_organic_engine_tile x) = Engines.TechnoOrganicEngineTileFits version x
BodyFits fg version (stormy_cloud_tile x) = Weather.StormyCloudTileFits x
BodyFits fg version (temporary_platform_tile x) = Blocks.TemporaryPlatformTileFits x
BodyFits fg version safe_vault_tile = Unit
BodyFits fg version (angelic_counting_cloud_tile x) = Labels.AngelicCountingCloudTileFits x
BodyFits fg version (pve_npc_tile x) = Npcs.PveNpcTileFits x
BodyFits fg version (infinity_weather_machine_tile x) = Weather.InfinityWeatherMachineTileFits x
BodyFits fg version (completionist_tile x) = Blocks.CompletionistTileFits x
BodyFits fg version (pineapple_guzzler_tile x) = Blocks.PineappleGuzzlerTileFits x
BodyFits fg version (kranken_galatic_block_tile x) = Blocks.KrankenGalaticBlockTileFits x
BodyFits fg version (friends_entrance_tile x) = Locks.FriendsEntranceTileFits x
