-- ===== src/World/Extra/Machines.antt =====
-- gtools/core/growtopia/world.py: forges, organs, engines and tanks.
use gtools.Prelude.{ℕ, refl, List, length, All}
use gtools.Python.Exec.{Exec, pure, ◌>>=◌, ◌>>◌}
use gtools.Buffer.Raw.{Buffer}
use gtools.Buffer.Values.{read_u8, read_u16, read_u32, write_u8, write_u16, write_u32}
use gtools.World.Extra.Loops.{read_many, write_each, IsU8, IsU16, IsU32}
use gtools.World.Extra.Carried.{AllCarry, next, last, u8, u16, u32, each}

pub record ForgeTile : Type 0 where
  pub temperature : ℕ
  pub unk1 : ℕ
  pub unk2 : ℕ

unfoldable pub deserialize_forge_tile : Exec Buffer ForgeTile
deserialize_forge_tile = do
  temperature ← read_u8
  unk1 ← read_u8
  unk2 ← read_u16
  pure (record { temperature = temperature; unk1 = unk1; unk2 = unk2 })

unfoldable pub serialize_forge_tile : ForgeTile → Exec Buffer Unit
serialize_forge_tile x = do write_u8 x.temperature; write_u8 x.unk1; write_u16 x.unk2

abbrev pub ForgeTileFits : ForgeTile → Type 0
ForgeTileFits x = IsU8 x.temperature × IsU8 x.unk1 × IsU16 x.unk2

pub forge_tile-Carries : AllCarry ForgeTileFits serialize_forge_tile deserialize_forge_tile
unfolding serialize_forge_tile deserialize_forge_tile
forge_tile-Carries x h = next _ (u8 h.0) (next _ (u8 h.1) (last _ (u16 h.2)))

pub record SteamOrganTile : Type 0 where
  pub instrument_type : ℕ
  pub note : ℕ

unfoldable pub deserialize_steam_organ_tile : Exec Buffer SteamOrganTile
deserialize_steam_organ_tile = do
  instrument_type ← read_u8
  note ← read_u32
  pure (record { instrument_type = instrument_type; note = note })

unfoldable pub serialize_steam_organ_tile : SteamOrganTile → Exec Buffer Unit
serialize_steam_organ_tile x = do write_u8 x.instrument_type; write_u32 x.note

abbrev pub SteamOrganTileFits : SteamOrganTile → Type 0
SteamOrganTileFits x = IsU8 x.instrument_type × IsU32 x.note

pub steam_organ_tile-Carries :
    AllCarry SteamOrganTileFits serialize_steam_organ_tile deserialize_steam_organ_tile
unfolding serialize_steam_organ_tile deserialize_steam_organ_tile
steam_organ_tile-Carries x h = next _ (u8 h.0) (last _ (u32 h.1))

pub record SewingMachineTile : Type 0 where
  pub bolt_id_list : List ℕ

unfoldable pub deserialize_sewing_machine_tile : Exec Buffer SewingMachineTile
deserialize_sewing_machine_tile = do
  count ← read_u32
  bolt_id_list ← read_many count read_u32
  pure (record { bolt_id_list = bolt_id_list })

unfoldable pub serialize_sewing_machine_tile : SewingMachineTile → Exec Buffer Unit
serialize_sewing_machine_tile x = do
  write_u32 (length x.bolt_id_list)
  write_each write_u32 x.bolt_id_list

abbrev pub SewingMachineTileFits : SewingMachineTile → Type 0
SewingMachineTileFits x = IsU32 (length x.bolt_id_list) × All IsU32 x.bolt_id_list

pub sewing_machine_tile-Carries :
    AllCarry SewingMachineTileFits serialize_sewing_machine_tile deserialize_sewing_machine_tile
unfolding serialize_sewing_machine_tile deserialize_sewing_machine_tile
sewing_machine_tile-Carries x h = next _ (u32 h.0) (last _ (each _ (λ _. u32) refl h.1))

pub record SteamEngineTile : Type 0 where
  pub temperature : ℕ

unfoldable pub deserialize_steam_engine_tile : Exec Buffer SteamEngineTile
deserialize_steam_engine_tile = do
  temperature ← read_u32
  pure (record { temperature = temperature })

unfoldable pub serialize_steam_engine_tile : SteamEngineTile → Exec Buffer Unit
serialize_steam_engine_tile x = write_u32 x.temperature

abbrev pub SteamEngineTileFits : SteamEngineTile → Type 0
SteamEngineTileFits x = IsU32 x.temperature

pub steam_engine_tile-Carries :
    AllCarry SteamEngineTileFits serialize_steam_engine_tile deserialize_steam_engine_tile
unfolding serialize_steam_engine_tile deserialize_steam_engine_tile
steam_engine_tile-Carries x h = last _ (u32 h)

pub record LockBotTile : Type 0 where
  pub time_passed : ℕ

unfoldable pub deserialize_lock_bot_tile : Exec Buffer LockBotTile
deserialize_lock_bot_tile = do time_passed ← read_u32; pure (record { time_passed = time_passed })

unfoldable pub serialize_lock_bot_tile : LockBotTile → Exec Buffer Unit
serialize_lock_bot_tile x = write_u32 x.time_passed

abbrev pub LockBotTileFits : LockBotTile → Type 0
LockBotTileFits x = IsU32 x.time_passed

pub lock_bot_tile-Carries :
    AllCarry LockBotTileFits serialize_lock_bot_tile deserialize_lock_bot_tile
unfolding serialize_lock_bot_tile deserialize_lock_bot_tile
lock_bot_tile-Carries x h = last _ (u32 h)

pub record SpiritStorageUnitTile : Type 0 where
  pub ghost_jar_count : ℕ

unfoldable pub deserialize_spirit_storage_unit_tile : Exec Buffer SpiritStorageUnitTile
deserialize_spirit_storage_unit_tile = do
  ghost_jar_count ← read_u32
  pure (record { ghost_jar_count = ghost_jar_count })

unfoldable pub serialize_spirit_storage_unit_tile : SpiritStorageUnitTile → Exec Buffer Unit
serialize_spirit_storage_unit_tile x = write_u32 x.ghost_jar_count

abbrev pub SpiritStorageUnitTileFits : SpiritStorageUnitTile → Type 0
SpiritStorageUnitTileFits x = IsU32 x.ghost_jar_count

pub spirit_storage_unit_tile-Carries :
    AllCarry SpiritStorageUnitTileFits serialize_spirit_storage_unit_tile
      deserialize_spirit_storage_unit_tile
unfolding serialize_spirit_storage_unit_tile deserialize_spirit_storage_unit_tile
spirit_storage_unit_tile-Carries x h = last _ (u32 h)

pub record ChemsynthTankTile : Type 0 where
  pub current_chem : ℕ
  pub target_chem : ℕ

unfoldable pub deserialize_chemsynth_tank_tile : Exec Buffer ChemsynthTankTile
deserialize_chemsynth_tank_tile = do
  current_chem ← read_u32
  target_chem ← read_u32
  pure (record { current_chem = current_chem; target_chem = target_chem })

unfoldable pub serialize_chemsynth_tank_tile : ChemsynthTankTile → Exec Buffer Unit
serialize_chemsynth_tank_tile x = do write_u32 x.current_chem; write_u32 x.target_chem

abbrev pub ChemsynthTankTileFits : ChemsynthTankTile → Type 0
ChemsynthTankTileFits x = IsU32 x.current_chem × IsU32 x.target_chem

pub chemsynth_tank_tile-Carries :
    AllCarry ChemsynthTankTileFits serialize_chemsynth_tank_tile deserialize_chemsynth_tank_tile
unfolding serialize_chemsynth_tank_tile deserialize_chemsynth_tank_tile
chemsynth_tank_tile-Carries x h = next _ (u32 h.0) (last _ (u32 h.1))
