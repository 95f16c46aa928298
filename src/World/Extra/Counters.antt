-- ===== src/World/Extra/Counters.antt =====
-- gtools/core/growtopia/world.py: seeds, dice, providers and other extras of a few numbers.
use gtools.Prelude.{ℕ, ◌&&◌, ◌||◌, ltb, ◌==◌}
use gtools.Python.Exec.{Exec, pure, ◌>>=◌, ◌>>◌}
use gtools.Buffer.Raw.{Buffer}
use gtools.Buffer.Values.{read_u8, read_u32, write_u8, write_u32}
use gtools.World.Extra.Items.{well_of_love, winterfest_calendar_2017}
use gtools.World.Extra.Loops.{read_if, write_if, IsU8, IsU32, Kept}
use gtools.World.Extra.Carried.{AllCarry, next, last, u8, u32, when}

pub record SeedTile : Type 0 where
  pub time_passed : ℕ
  pub item_on_tree : ℕ

unfoldable pub deserialize_seed_tile : Exec Buffer SeedTile
deserialize_seed_tile = do
  time_passed ← read_u32
  item_on_tree ← read_u8
  pure (record { time_passed = time_passed; item_on_tree = item_on_tree })

unfoldable pub serialize_seed_tile : SeedTile → Exec Buffer Unit
serialize_seed_tile x = do write_u32 x.time_passed; write_u8 x.item_on_tree

abbrev pub SeedTileFits : SeedTile → Type 0
SeedTileFits x = IsU32 x.time_passed × IsU8 x.item_on_tree

pub seed_tile-Carries : AllCarry SeedTileFits serialize_seed_tile deserialize_seed_tile
unfolding serialize_seed_tile deserialize_seed_tile
seed_tile-Carries x h = next _ (u32 h.0) (last _ (u8 h.1))

pub record DiceTile : Type 0 where
  pub symbol : ℕ

unfoldable pub deserialize_dice_tile : Exec Buffer DiceTile
deserialize_dice_tile = do symbol ← read_u8; pure (record { symbol = symbol })

unfoldable pub serialize_dice_tile : DiceTile → Exec Buffer Unit
serialize_dice_tile x = write_u8 x.symbol

abbrev pub DiceTileFits : DiceTile → Type 0
DiceTileFits x = IsU8 x.symbol

pub dice_tile-Carries : AllCarry DiceTileFits serialize_dice_tile deserialize_dice_tile
unfolding serialize_dice_tile deserialize_dice_tile
dice_tile-Carries x h = last _ (u8 h)

pub record ProviderTile : Type 0 where
  pub time_passed : ℕ
  pub time_ms : ℕ

unfoldable pub deserialize_provider_tile : ℕ → ℕ → Exec Buffer ProviderTile
deserialize_provider_tile fg version = do
  time_passed ← read_u32
  time_ms ←
      read_if ((fg == well_of_love && ltb 16 version) || fg == winterfest_calendar_2017) read_u32 0
  pure (record { time_passed = time_passed; time_ms = time_ms })

unfoldable pub serialize_provider_tile : ℕ → ℕ → ProviderTile → Exec Buffer Unit
serialize_provider_tile fg version x = do
  write_u32 x.time_passed
  write_if ((fg == well_of_love && ltb 16 version) || fg == winterfest_calendar_2017)
      (write_u32 x.time_ms)

abbrev pub ProviderTileFits : ℕ → ℕ → ProviderTile → Type 0
ProviderTileFits fg version x =
    IsU32 x.time_passed
    × Kept ((fg == well_of_love && ltb 16 version) || fg == winterfest_calendar_2017)
        (IsU32 x.time_ms) x.time_ms 0

pub provider_tile-Carries :
    (fg version : ℕ)
    → AllCarry
        (ProviderTileFits fg version)
        (serialize_provider_tile fg version)
        (deserialize_provider_tile fg version)
unfolding serialize_provider_tile deserialize_provider_tile
provider_tile-Carries fg version x h = next _ (u32 h.0) (last _ (when _ _ _ u32 h.1))

pub record AchievementBlockTile : Type 0 where
  pub unk1 : ℕ
  pub tile_type : ℕ

unfoldable pub deserialize_achievement_block_tile : Exec Buffer AchievementBlockTile
deserialize_achievement_block_tile = do
  unk1 ← read_u32
  tile_type ← read_u8
  pure (record { unk1 = unk1; tile_type = tile_type })

unfoldable pub serialize_achievement_block_tile : AchievementBlockTile → Exec Buffer Unit
serialize_achievement_block_tile x = do write_u32 x.unk1; write_u8 x.tile_type

abbrev pub AchievementBlockTileFits : AchievementBlockTile → Type 0
AchievementBlockTileFits x = IsU32 x.unk1 × IsU8 x.tile_type

pub achievement_block_tile-Carries :
    AllCarry AchievementBlockTileFits serialize_achievement_block_tile
      deserialize_achievement_block_tile
unfolding serialize_achievement_block_tile deserialize_achievement_block_tile
achievement_block_tile-Carries x h = next _ (u32 h.0) (last _ (u8 h.1))

pub record BunnyEggTile : Type 0 where
  pub eggs_placed : ℕ

unfoldable pub deserialize_bunny_egg_tile : Exec Buffer BunnyEggTile
deserialize_bunny_egg_tile = do eggs_placed ← read_u32; pure (record { eggs_placed = eggs_placed })

unfoldable pub serialize_bunny_egg_tile : BunnyEggTile → Exec Buffer Unit
serialize_bunny_egg_tile x = write_u32 x.eggs_placed

abbrev pub BunnyEggTileFits : BunnyEggTile → Type 0
BunnyEggTileFits x = IsU32 x.eggs_placed

pub bunny_egg_tile-Carries :
    AllCarry BunnyEggTileFits serialize_bunny_egg_tile deserialize_bunny_egg_tile
unfolding serialize_bunny_egg_tile deserialize_bunny_egg_tile
bunny_egg_tile-Carries x h = last _ (u32 h)

pub record TeamTile : Type 0 where
  pub team : ℕ

unfoldable pub deserialize_team_tile : Exec Buffer TeamTile
deserialize_team_tile = do team ← read_u8; pure (record { team = team })

unfoldable pub serialize_team_tile : TeamTile → Exec Buffer Unit
serialize_team_tile x = write_u8 x.team

abbrev pub TeamTileFits : TeamTile → Type 0
TeamTileFits x = IsU8 x.team

pub team_tile-Carries : AllCarry TeamTileFits serialize_team_tile deserialize_team_tile
unfolding serialize_team_tile deserialize_team_tile
team_tile-Carries x h = last _ (u8 h)

pub record XenoniteCrystalTile : Type 0 where
  pub unk1 : ℕ
  pub unk2 : ℕ

unfoldable pub deserialize_xenonite_crystal_tile : Exec Buffer XenoniteCrystalTile
deserialize_xenonite_crystal_tile = do
  unk1 ← read_u8
  unk2 ← read_u32
  pure (record { unk1 = unk1; unk2 = unk2 })

unfoldable pub serialize_xenonite_crystal_tile : XenoniteCrystalTile → Exec Buffer Unit
serialize_xenonite_crystal_tile x = do write_u8 x.unk1; write_u32 x.unk2

abbrev pub XenoniteCrystalTileFits : XenoniteCrystalTile → Type 0
XenoniteCrystalTileFits x = IsU8 x.unk1 × IsU32 x.unk2

pub xenonite_crystal_tile-Carries :
    AllCarry XenoniteCrystalTileFits serialize_xenonite_crystal_tile
      deserialize_xenonite_crystal_tile
unfolding serialize_xenonite_crystal_tile deserialize_xenonite_crystal_tile
xenonite_crystal_tile-Carries x h = next _ (u8 h.0) (last _ (u32 h.1))
