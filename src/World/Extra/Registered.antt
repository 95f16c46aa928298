-- ===== src/World/Extra/Registered.antt =====
-- Every class of tile extras is registered under its type, with a reader that takes back what its
-- writer writes.
use gtools.Prelude.{ℕ, ◌≡◌, refl, some, arith}
use gtools.Python.Exec.{Exec}
use gtools.Python.Dict
use gtools.Python.Dict.{nat_eq}
use gtools.Buffer.Raw.{Buffer}
use gtools.World.Extra.Loops.{IsU8}
use gtools.World.Extra.Carried.{Carries, finished, last}
use gtools.World.Extra.Signs
use gtools.World.Extra.Labels
use gtools.World.Extra.Counters
use gtools.World.Extra.Shops
use gtools.World.Extra.Clothes
use gtools.World.Extra.Portraits
use gtools.World.Extra.Machines
use gtools.World.Extra.Weather
use gtools.World.Extra.Fish
use gtools.World.Extra.Pets
use gtools.World.Extra.Stores
use gtools.World.Extra.Locks
use gtools.World.Extra.Guilds
use gtools.World.Extra.Engines
use gtools.World.Extra.Blocks
use gtools.World.Extra.Npcs
use gtools.World.Extra.Bodies
use gtools.World.Extra.Bodies.{TileExtraBody, class_type, serialize_body, BodyFits}
use gtools.World.Extra.Registry.{registry}

pub record IsRegistered (fg version : ℕ) (b : TileExtraBody) : Type 0 where
  pub reader : Exec Buffer TileExtraBody
  pub small : IsU8 (class_type b)
  pub found : Dict.lookup (class_type b) (registry fg version) ≡ some reader
  pub carried : Carries (serialize_body fg version b) reader b

registered :
    {fg version : ℕ} {b : TileExtraBody} {r : Exec Buffer TileExtraBody}
    → Dict.lookup (class_type b) (registry fg version) ≡ some r
    → IsU8 (class_type b)
    → Carries (serialize_body fg version b) r b
    → IsRegistered fg version b
registered f s c = record { reader = _; small = s; found = f; carried = c }

pub body-IsRegistered :
    (fg version : ℕ) (b : TileExtraBody) → BodyFits fg version b → IsRegistered fg version b
unfolding class_type serialize_body BodyFits registry Dict.lookup
body-IsRegistered fg version (Bodies.door_tile x) h =
    registered refl (omega arith) (last _ (Signs.door_tile-Carries x h))
body-IsRegistered fg version (Bodies.sign_tile x) h =
    registered refl (omega arith) (last _ (Signs.sign_tile-Carries x h))
body-IsRegistered fg version (Bodies.lock_tile x) h =
    registered refl (omega arith) (last _ (Locks.lock_tile-Carries version x h))
body-IsRegistered fg version (Bodies.seed_tile x) h =
    registered refl (omega arith) (last _ (Counters.seed_tile-Carries x h))
body-IsRegistered fg version Bodies.scroll_bulletin_tile h = registered refl (omega arith) finished
body-IsRegistered fg version (Bodies.mailbox_tile x) h =
    registered refl (omega arith) (last _ (Signs.mailbox_tile-Carries x h))
body-IsRegistered fg version (Bodies.bulletin_tile x) h =
    registered refl (omega arith) (last _ (Signs.bulletin_tile-Carries x h))
body-IsRegistered fg version (Bodies.dice_tile x) h =
    registered refl (omega arith) (last _ (Counters.dice_tile-Carries x h))
body-IsRegistered fg version (Bodies.provider_tile x) h =
    registered refl (omega arith) (last _ (Counters.provider_tile-Carries fg version x h))
body-IsRegistered fg version (Bodies.achievement_block_tile x) h =
    registered refl (omega arith) (last _ (Counters.achievement_block_tile-Carries x h))
body-IsRegistered fg version (Bodies.heart_monitor_tile x) h =
    registered refl (omega arith) (last _ (Labels.heart_monitor_tile-Carries x h))
body-IsRegistered fg version (Bodies.donation_box_tile x) h =
    registered refl (omega arith) (last _ (Signs.donation_box_tile-Carries x h))
body-IsRegistered fg version (Bodies.stuff_for_toys_tile x) h =
    registered refl (omega arith) (last _ (Signs.stuff_for_toys_tile-Carries x h))
body-IsRegistered fg version (Bodies.mannequin_tile x) h =
    registered refl (omega arith) (last _ (Clothes.mannequin_tile-Carries x h))
body-IsRegistered fg version (Bodies.bunny_egg_tile x) h =
    registered refl (omega arith) (last _ (Counters.bunny_egg_tile-Carries x h))
body-IsRegistered fg version (Bodies.team_tile x) h =
    registered refl (omega arith) (last _ (Counters.team_tile-Carries x h))
body-IsRegistered fg version Bodies.game_generator_tile h = registered refl (omega arith) finished
body-IsRegistered fg version (Bodies.xenonite_crystal_tile x) h =
    registered refl (omega arith) (last _ (Counters.xenonite_crystal_tile-Carries x h))
body-IsRegistered fg version (Bodies.phone_booth_tile x) h =
    registered refl (omega arith) (last _ (Clothes.phone_booth_tile-Carries x h))
body-IsRegistered fg version (Bodies.crystal_tile x) h =
    registered refl (omega arith) (last _ (Labels.crystal_tile-Carries x h))
body-IsRegistered fg version (Bodies.crime_in_progress_tile x) h =
    registered refl (omega arith) (last _ (Labels.crime_in_progress_tile-Carries x h))
body-IsRegistered fg version (Bodies.display_block_tile x) h =
    registered refl (omega arith) (last _ (Shops.display_block_tile-Carries x h))
body-IsRegistered fg version (Bodies.vending_machine_tile x) h =
    registered refl (omega arith) (last _ (Shops.vending_machine_tile-Carries x h))
body-IsRegistered fg version (Bodies.giving_tree_tile x) h =
    registered refl (omega arith) (last _ (Shops.giving_tree_tile-Carries x h))
body-IsRegistered fg version (Bodies.country_flag_tile x) h =
    registered refl (omega arith) (last _ (Labels.country_flag_tile-Carries x h))
body-IsRegistered fg version (Bodies.weather_machine_tile x) h =
    registered refl (omega arith) (last _ (Shops.weather_machine_tile-Carries x h))
body-IsRegistered fg version (Bodies.data_bedrock_tile x) h =
    registered refl (omega arith) (last _ (Guilds.data_bedrock_tile-Carries version x h))
body-IsRegistered fg version Bodies.spotlight_tile h = registered refl (omega arith) finished
body-IsRegistered fg version (Bodies.fish_tank_port_tile x) h =
    registered refl (omega arith) (last _ (Fish.fish_tank_port_tile-Carries x h))
body-IsRegistered fg version (Bodies.solar_collector_tile x) h =
    registered refl (omega arith) (last _ (Shops.solar_collector_tile-Carries x h))
body-IsRegistered fg version (Bodies.forge_tile x) h =
    registered refl (omega arith) (last _ (Machines.forge_tile-Carries x h))
body-IsRegistered fg version (Bodies.steam_organ_tile x) h =
    registered refl (omega arith) (last _ (Machines.steam_organ_tile-Carries x h))
body-IsRegistered fg version (Bodies.silkworm_tile x) h =
    registered refl (omega arith) (last _ (Pets.silkworm_tile-Carries x h))
body-IsRegistered fg version (Bodies.sewing_machine_tile x) h =
    registered refl (omega arith) (last _ (Machines.sewing_machine_tile-Carries x h))
body-IsRegistered fg version Bodies.lobster_trap_tile h = registered refl (omega arith) finished
body-IsRegistered fg version (Bodies.painting_easel_tile x) h =
    registered refl (omega arith) (last _ (Labels.painting_easel_tile-Carries x h))
body-IsRegistered fg version (Bodies.pet_battle_cage_tile x) h =
    registered refl (omega arith) (last _ (Pets.pet_battle_cage_tile-Carries x h))
body-IsRegistered fg version (Bodies.pet_trainer_tile x) h =
    registered refl (omega arith) (last _ (Pets.pet_trainer_tile-Carries x h))
body-IsRegistered fg version (Bodies.steam_engine_tile x) h =
    registered refl (omega arith) (last _ (Machines.steam_engine_tile-Carries x h))
body-IsRegistered fg version (Bodies.lock_bot_tile x) h =
    registered refl (omega arith) (last _ (Machines.lock_bot_tile-Carries x h))
body-IsRegistered fg version (Bodies.spirit_storage_unit_tile x) h =
    registered refl (omega arith) (last _ (Machines.spirit_storage_unit_tile-Carries x h))
body-IsRegistered fg version (Bodies.shelf_tile x) h =
    registered refl (omega arith) (last _ (Shops.shelf_tile-Carries x h))
body-IsRegistered fg version (Bodies.vip_entrance_tile x) h =
    registered refl (omega arith) (last _ (Locks.vip_entrance_tile-Carries x h))
body-IsRegistered fg version Bodies.challenge_timer_tile h = registered refl (omega arith) finished
body-IsRegistered fg version (Bodies.fish_wall_mount_tile x) h =
    registered refl (omega arith) (last _ (Fish.fish_wall_mount_tile-Carries x h))
body-IsRegistered fg version (Bodies.portrait_tile x) h =
    registered refl (omega arith) (last _ (Portraits.portrait_tile-Carries version x h))
body-IsRegistered fg version (Bodies.guild_weather_machine_tile x) h =
    registered refl (omega arith) (last _ (Weather.guild_weather_machine_tile-Carries x h))
body-IsRegistered fg version (Bodies.fossil_prep_station_tile x) h =
    registered refl (omega arith) (last _ (Weather.fossil_prep_station_tile-Carries x h))
body-IsRegistered fg version Bodies.dna_extractor_tile h = registered refl (omega arith) finished
body-IsRegistered fg version Bodies.blaster_tile h = registered refl (omega arith) finished
body-IsRegistered fg version (Bodies.chemsynth_tank_tile x) h =
    registered refl (omega arith) (last _ (Machines.chemsynth_tank_tile-Carries x h))
body-IsRegistered fg version (Bodies.storage_block_tile x) h =
    registered refl (omega arith) (last _ (Stores.storage_block_tile-Carries x h))
body-IsRegistered fg version (Bodies.cooking_oven_tile x) h =
    registered refl (omega arith) (last _ (Stores.cooking_oven_tile-Carries version x h))
body-IsRegistered fg version (Bodies.audio_rack_tile x) h =
    registered refl (omega arith) (last _ (Labels.audio_rack_tile-Carries x h))
body-IsRegistered fg version (Bodies.geiger_charger_tile x) h =
    registered refl (omega arith) (last _ (Weather.geiger_charger_tile-Carries x h))
body-IsRegistered fg version Bodies.adventure_begins_tile h = registered refl (omega arith) finished
body-IsRegistered fg version Bodies.tomb_robber_tile h = registered refl (omega arith) finished
body-IsRegistered fg version (Bodies.balloon_o_matic_tile x) h =
    registered refl (omega arith) (last _ (Weather.balloon_o_matic_tile-Carries x h))
body-IsRegistered fg version (Bodies.training_port_tile x) h =
    registered refl (omega arith) (last _ (Fish.training_port_tile-Carries x h))
body-IsRegistered fg version (Bodies.item_sucker_tile x) h =
    registered refl (omega arith) (last _ (Weather.item_sucker_tile-Carries x h))
body-IsRegistered fg version (Bodies.cybot_tile x) h =
    registered refl (omega arith) (last _ (Stores.cybot_tile-Carries x h))
body-IsRegistered fg version (Bodies.guild_item_tile x) h =
    registered refl (omega arith) (last _ (Guilds.guild_item_tile-Carries fg x h))
body-IsRegistered fg version (Bodies.growscan_tile x) h =
    registered refl (omega arith) (last _ (Blocks.growscan_tile-Carries x h))
body-IsRegistered fg version (Bodies.containment_field_power_node_tile x) h =
    registered refl (omega arith) (last _ (Blocks.containment_field_power_node_tile-Carries x h))
body-IsRegistered fg version (Bodies.spirit_board_tile x) h =
    registered refl (omega arith) (last _ (Blocks.spirit_board_tile-Carries x h))
body-IsRegistered fg version (Bodies.tesseract_manipulator_tile x) h =
    registered refl (omega arith) (last _ (Engines.tesseract_manipulator_tile-Carries version x h))
body-IsRegistered fg version (Bodies.heart_of_gaia_tile x) h =
    registered refl (omega arith) (last _ (Engines.heart_of_gaia_tile-Carries version x h))
body-IsRegistered fg version (Bodies.techno_organic_engine_tile x) h =
    registered refl (omega arith) (last _ (Engines.techno_organic_engine_tile-Carries version x h))
body-IsRegistered fg version (Bodies.stormy_cloud_tile x) h =
    registered refl (omega arith) (last _ (Weather.stormy_cloud_tile-Carries x h))
body-IsRegistered fg version (Bodies.temporary_platform_tile x) h =
    registered refl (omega arith) (last _ (Blocks.temporary_platform_tile-Carries x h))
body-IsRegistered fg version Bodies.safe_vault_tile h = registered refl (omega arith) finished
body-IsRegistered fg version (Bodies.angelic_counting_cloud_tile x) h =
    registered refl (omega arith) (last _ (Labels.angelic_counting_cloud_tile-Carries x h))
body-IsRegistered fg version (Bodies.pve_npc_tile x) h =
    registered refl (omega arith) (last _ (Npcs.pve_npc_tile-Carries x h))
body-IsRegistered fg version (Bodies.infinity_weather_machine_tile x) h =
    registered refl (omega arith) (last _ (Weather.infinity_weather_machine_tile-Carries x h))
body-IsRegistered fg version (Bodies.completionist_tile x) h =
    registered refl (omega arith) (last _ (Blocks.completionist_tile-Carries x h))
body-IsRegistered fg version (Bodies.pineapple_guzzler_tile x) h =
    registered refl (omega arith) (last _ (Blocks.pineapple_guzzler_tile-Carries x h))
body-IsRegistered fg version (Bodies.kranken_galatic_block_tile x) h =
    registered refl (omega arith) (last _ (Blocks.kranken_galatic_block_tile-Carries x h))
body-IsRegistered fg version (Bodies.friends_entrance_tile x) h =
    registered refl (omega arith) (last _ (Locks.friends_entrance_tile-Carries x h))
