-- ===== src/World/Extra/Weather.antt =====
-- gtools/core/growtopia/world.py: weather machines, clouds and collectors.
use gtools.Prelude.{ℕ, refl, List, length, All}
use gtools.Python.Exec.{Exec, pure, ◌>>=◌, ◌>>◌}
use gtools.Buffer.Raw.{Buffer}
use gtools.Buffer.Values.{read_u8, read_u16, read_u32, write_u8, write_u16, write_u32}
use gtools.World.Extra.Loops.{read_many, write_each, IsU8, IsU16, IsU32}
use gtools.World.Extra.Carried.{AllCarry, next, last, u8, u16, u32, each}

pub record GuildWeatherMachineTile : Type 0 where
  pub cycle_time_ms : ℕ
  pub gravity : ℕ
  pub flags : ℕ

unfoldable pub deserialize_guild_weather_machine_tile : Exec Buffer GuildWeatherMachineTile
deserialize_guild_weather_machine_tile = do
  cycle_time_ms ← read_u32
  gravity ← read_u32
  flags ← read_u8
  pure (record { cycle_time_ms = cycle_time_ms; gravity = gravity; flags = flags })

unfoldable pub serialize_guild_weather_machine_tile : GuildWeatherMachineTile → Exec Buffer Unit
serialize_guild_weather_machine_tile x = do
  write_u32 x.cycle_time_ms
  write_u32 x.gravity
  write_u8 x.flags

abbrev pub GuildWeatherMachineTileFits : GuildWeatherMachineTile → Type 0
GuildWeatherMachineTileFits x = IsU32 x.cycle_time_ms × IsU32 x.gravity × IsU8 x.flags

pub guild_weather_machine_tile-Carries :
    AllCarry GuildWeatherMachineTileFits serialize_guild_weather_machine_tile
      deserialize_guild_weather_machine_tile
unfolding serialize_guild_weather_machine_tile deserialize_guild_weather_machine_tile
guild_weather_machine_tile-Carries x h = next _ (u32 h.0) (next _ (u32 h.1) (last _ (u8 h.2)))

pub record InfinityWeatherMachineTile : Type 0 where
  pub cycle_time_ms : ℕ
  pub weather_machine_list : List ℕ

unfoldable pub deserialize_infinity_weather_machine_tile : Exec Buffer InfinityWeatherMachineTile
deserialize_infinity_weather_machine_tile = do
  cycle_time_ms ← read_u32
  count ← read_u32
  weather_machine_list ← read_many count read_u32
  pure (record { cycle_time_ms = cycle_time_ms; weather_machine_list = weather_machine_list })

unfoldable pub serialize_infinity_weather_machine_tile :
    InfinityWeatherMachineTile → Exec Buffer Unit
serialize_infinity_weather_machine_tile x = do
  write_u32 x.cycle_time_ms
  write_u32 (length x.weather_machine_list)
  write_each write_u32 x.weather_machine_list

abbrev pub InfinityWeatherMachineTileFits : InfinityWeatherMachineTile → Type 0
InfinityWeatherMachineTileFits x =
    IsU32 x.cycle_time_ms × IsU32 (length x.weather_machine_list) × All IsU32 x.weather_machine_list

pub infinity_weather_machine_tile-Carries :
    AllCarry InfinityWeatherMachineTileFits serialize_infinity_weather_machine_tile
      deserialize_infinity_weather_machine_tile
unfolding serialize_infinity_weather_machine_tile deserialize_infinity_weather_machine_tile
infinity_weather_machine_tile-Carries x h =
    next _ (u32 h.0) (next _ (u32 h.1) (last _ (each _ (λ _. u32) refl h.2)))

pub record StormyCloudTile : Type 0 where
  pub sting_duration : ℕ
  pub is_solid : ℕ
  pub non_solid_duration : ℕ

unfoldable pub deserialize_stormy_cloud_tile : Exec Buffer StormyCloudTile
deserialize_stormy_cloud_tile = do
  sting_duration ← read_u32
  is_solid ← read_u32
  non_solid_duration ← read_u32
  pure (record {
    sting_duration = sting_duration;
    is_solid = is_solid;
    non_solid_duration = non_solid_duration;
  })

unfoldable pub serialize_stormy_cloud_tile : StormyCloudTile → Exec Buffer Unit
serialize_stormy_cloud_tile x = do
  write_u32 x.sting_duration
  write_u32 x.is_solid
  write_u32 x.non_solid_duration

abbrev pub StormyCloudTileFits : StormyCloudTile → Type 0
StormyCloudTileFits x = IsU32 x.sting_duration × IsU32 x.is_solid × IsU32 x.non_solid_duration

pub stormy_cloud_tile-Carries :
    AllCarry StormyCloudTileFits serialize_stormy_cloud_tile deserialize_stormy_cloud_tile
unfolding serialize_stormy_cloud_tile deserialize_stormy_cloud_tile
stormy_cloud_tile-Carries x h = next _ (u32 h.0) (next _ (u32 h.1) (last _ (u32 h.2)))

pub record FossilPrepStationTile : Type 0 where
  pub unk1 : ℕ

unfoldable pub deserialize_fossil_prep_station_tile : Exec Buffer FossilPrepStationTile
deserialize_fossil_prep_station_tile = do unk1 ← read_u32; pure (record { unk1 = unk1 })

unfoldable pub serialize_fossil_prep_station_tile : FossilPrepStationTile → Exec Buffer Unit
serialize_fossil_prep_station_tile x = write_u32 x.unk1

abbrev pub FossilPrepStationTileFits : FossilPrepStationTile → Type 0
FossilPrepStationTileFits x = IsU32 x.unk1

pub fossil_prep_station_tile-Carries :
    AllCarry FossilPrepStationTileFits serialize_fossil_prep_station_tile
      deserialize_fossil_prep_station_tile
unfolding serialize_fossil_prep_station_tile deserialize_fossil_prep_station_tile
fossil_prep_station_tile-Carries x h = last _ (u32 h)

pub record GeigerChargerTile : Type 0 where
  pub unk1 : ℕ

unfoldable pub deserialize_geiger_charger_tile : Exec Buffer GeigerChargerTile
deserialize_geiger_charger_tile = do unk1 ← read_u32; pure (record { unk1 = unk1 })

unfoldable pub serialize_geiger_charger_tile : GeigerChargerTile → Exec Buffer Unit
serialize_geiger_charger_tile x = write_u32 x.unk1

abbrev pub GeigerChargerTileFits : GeigerChargerTile → Type 0
GeigerChargerTileFits x = IsU32 x.unk1

pub geiger_charger_tile-Carries :
    AllCarry GeigerChargerTileFits serialize_geiger_charger_tile deserialize_geiger_charger_tile
unfolding serialize_geiger_charger_tile deserialize_geiger_charger_tile
geiger_charger_tile-Carries x h = last _ (u32 h)

pub record BalloonOMaticTile : Type 0 where
  pub total_rarity : ℕ
  pub team_type : ℕ

unfoldable pub deserialize_balloon_o_matic_tile : Exec Buffer BalloonOMaticTile
deserialize_balloon_o_matic_tile = do
  total_rarity ← read_u32
  team_type ← read_u8
  pure (record { total_rarity = total_rarity; team_type = team_type })

unfoldable pub serialize_balloon_o_matic_tile : BalloonOMaticTile → Exec Buffer Unit
serialize_balloon_o_matic_tile x = do write_u32 x.total_rarity; write_u8 x.team_type

abbrev pub BalloonOMaticTileFits : BalloonOMaticTile → Type 0
BalloonOMaticTileFits x = IsU32 x.total_rarity × IsU8 x.team_type

pub balloon_o_matic_tile-Carries :
    AllCarry BalloonOMaticTileFits serialize_balloon_o_matic_tile deserialize_balloon_o_matic_tile
unfolding serialize_balloon_o_matic_tile deserialize_balloon_o_matic_tile
balloon_o_matic_tile-Carries x h = next _ (u32 h.0) (last _ (u8 h.1))

pub record ItemSuckerTile : Type 0 where
  pub item_id : ℕ
  pub item_amount : ℕ
  pub flags : ℕ
  pub limit : ℕ

unfoldable pub deserialize_item_sucker_tile : Exec Buffer ItemSuckerTile
deserialize_item_sucker_tile = do
  item_id ← read_u32
  item_amount ← read_u32
  flags ← read_u16
  limit ← read_u32
  pure (record { item_id = item_id; item_amount = item_amount; flags = flags; limit = limit })

unfoldable pub serialize_item_sucker_tile : ItemSuckerTile → Exec Buffer Unit
serialize_item_sucker_tile x = do
  write_u32 x.item_id
  write_u32 x.item_amount
  write_u16 x.flags
  write_u32 x.limit

abbrev pub ItemSuckerTileFits : ItemSuckerTile → Type 0
ItemSuckerTileFits x = IsU32 x.item_id × IsU32 x.item_amount × IsU16 x.flags × IsU32 x.limit

pub item_sucker_tile-Carries :
    AllCarry ItemSuckerTileFits serialize_item_sucker_tile deserialize_item_sucker_tile
unfolding serialize_item_sucker_tile deserialize_item_sucker_tile
item_sucker_tile-Carries x h =
    next _ (u32 h.0) (next _ (u32 h.1) (next _ (u16 h.2) (last _ (u32 h.3))))
