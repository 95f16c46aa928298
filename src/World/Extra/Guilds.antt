-- ===== src/World/Extra/Guilds.antt =====
-- gtools/core/growtopia/world.py: what stands for a guild, a starship or data bedrock.
use gtools.Prelude.{ℕ, not, ltb, ◌==◌, arith, ℤ, pos}
use gtools.Python.Exec.{Exec, pure, ◌>>=◌, ◌>>◌}
use gtools.Buffer.Raw.{Buffer}
use gtools.Buffer.Values.{
  read_u8, read_u32, read_u64, read_i32, write_u8, write_u32, write_u64, write_i32,
}
use gtools.World.Extra.Items.{guild_lock}
use gtools.World.Extra.Loops.{skip_one, read_if, write_if, IsU8, IsU32, IsU64, IsI32, Kept}
use gtools.World.Extra.Carried.{AllCarry, next, last, u8, u32, u64, i32, skipped, when}

pub record GuildItemTile : Type 0 where
  pub unk1 : ℕ
  pub unk2 : ℕ
  pub unk3 : ℕ
  pub unk4 : ℕ
  pub unk5 : ℕ

unfoldable pub deserialize_guild_item_tile : ℕ → Exec Buffer GuildItemTile
deserialize_guild_item_tile fg = do
  unk1 ← read_if (not (fg == guild_lock)) read_u8 0
  unk2 ← read_u32
  unk3 ← read_u32
  unk4 ← read_u32
  unk5 ← read_u32
  pure (record { unk1 = unk1; unk2 = unk2; unk3 = unk3; unk4 = unk4; unk5 = unk5 })

unfoldable pub serialize_guild_item_tile : ℕ → GuildItemTile → Exec Buffer Unit
serialize_guild_item_tile fg x = do
  write_if (not (fg == guild_lock)) (write_u8 x.unk1)
  write_u32 x.unk2
  write_u32 x.unk3
  write_u32 x.unk4
  write_u32 x.unk5

abbrev pub GuildItemTileFits : ℕ → GuildItemTile → Type 0
GuildItemTileFits fg x =
    Kept (not (fg == guild_lock)) (IsU8 x.unk1) x.unk1 0
    × IsU32 x.unk2
    × IsU32 x.unk3
    × IsU32 x.unk4
    × IsU32 x.unk5

pub guild_item_tile-Carries :
    (fg : ℕ)
    → AllCarry
        (GuildItemTileFits fg)
        (serialize_guild_item_tile fg)
        (deserialize_guild_item_tile fg)
unfolding serialize_guild_item_tile deserialize_guild_item_tile
guild_item_tile-Carries fg x h =
    next _ (when _ _ _ u8 h.0)
      (next _ (u32 h.1) (next _ (u32 h.2) (next _ (u32 h.3) (last _ (u32 h.4)))))

pub record StarshipHullData : Type 0 where
  pub unk1 : ℕ
  pub unk2 : ℕ
  pub unk3 : ℕ
  pub unk4 : ℕ
  pub unk5 : ℕ
  pub unk6 : ℕ
  pub unk7 : ℕ
  pub unk8 : ℕ

unfoldable pub deserialize_starship_hull_data : ℕ → Exec Buffer StarshipHullData
deserialize_starship_hull_data version = do
  unk1 ← read_u32
  unk2 ← read_u32
  unk3 ← read_u32
  unk4 ← read_u32
  unk5 ← read_u32
  unk6 ← read_u32
  unk7 ← read_if (ltb 10 version) read_u64 0
  unk8 ← read_if (ltb 14 version) read_u32 0
  pure (record {
    unk1 = unk1;
    unk2 = unk2;
    unk3 = unk3;
    unk4 = unk4;
    unk5 = unk5;
    unk6 = unk6;
    unk7 = unk7;
    unk8 = unk8;
  })

unfoldable pub serialize_starship_hull_data : ℕ → StarshipHullData → Exec Buffer Unit
serialize_starship_hull_data version x = do
  write_u32 x.unk1
  write_u32 x.unk2
  write_u32 x.unk3
  write_u32 x.unk4
  write_u32 x.unk5
  write_u32 x.unk6
  write_if (ltb 10 version) (write_u64 x.unk7)
  write_if (ltb 14 version) (write_u32 x.unk8)

abbrev pub StarshipHullDataFits : ℕ → StarshipHullData → Type 0
StarshipHullDataFits version x =
    IsU32 x.unk1
    × IsU32 x.unk2
    × IsU32 x.unk3
    × IsU32 x.unk4
    × IsU32 x.unk5
    × IsU32 x.unk6
    × Kept (ltb 10 version) (IsU64 x.unk7) x.unk7 0
    × Kept (ltb 14 version) (IsU32 x.unk8) x.unk8 0

pub starship_hull_data-Carries :
    (version : ℕ)
    → AllCarry
        (StarshipHullDataFits version)
        (serialize_starship_hull_data version)
        (deserialize_starship_hull_data version)
unfolding serialize_starship_hull_data deserialize_starship_hull_data
starship_hull_data-Carries version x h = next _ (u32 h.0) (
    next _ (u32 h.1) (
      next _ (u32 h.2) (
        next _ (u32 h.3) (
          next _ (u32 h.4)
            (next _ (u32 h.5) (next _ (when _ _ _ u64 h.6) (last _ (when _ _ _ u32 h.7))))))))

pub record DataBedrockTile : Type 0 where
  pub unk1 : ℕ
  pub unk2 : ℕ
  pub unk3 : ℕ
  pub unk4 : ℕ
  pub unk5 : ℤ

unfoldable pub deserialize_data_bedrock_tile : ℕ → Exec Buffer DataBedrockTile
deserialize_data_bedrock_tile version = do
  skip_one
  unk1 ← read_if (ltb 18 version) read_u32 0
  unk2 ← read_if (ltb 18 version) read_u32 0
  unk3 ← read_if (ltb 18 version) read_u32 0
  unk4 ← read_if (ltb 19 version) read_u32 0
  unk5 ← read_if (ltb 19 version) read_i32 (pos 0)
  pure (record { unk1 = unk1; unk2 = unk2; unk3 = unk3; unk4 = unk4; unk5 = unk5 })

unfoldable pub serialize_data_bedrock_tile : ℕ → DataBedrockTile → Exec Buffer Unit
serialize_data_bedrock_tile version x = do
  write_u8 0
  write_if (ltb 18 version) (write_u32 x.unk1)
  write_if (ltb 18 version) (write_u32 x.unk2)
  write_if (ltb 18 version) (write_u32 x.unk3)
  write_if (ltb 19 version) (write_u32 x.unk4)
  write_if (ltb 19 version) (write_i32 x.unk5)

abbrev pub DataBedrockTileFits : ℕ → DataBedrockTile → Type 0
DataBedrockTileFits version x =
    Kept (ltb 18 version) (IsU32 x.unk1) x.unk1 0
    × Kept (ltb 18 version) (IsU32 x.unk2) x.unk2 0
    × Kept (ltb 18 version) (IsU32 x.unk3) x.unk3 0
    × Kept (ltb 19 version) (IsU32 x.unk4) x.unk4 0
    × Kept (ltb 19 version) (IsI32 x.unk5) x.unk5 (pos 0)

pub data_bedrock_tile-Carries :
    (version : ℕ)
    → AllCarry
        (DataBedrockTileFits version)
        (serialize_data_bedrock_tile version)
        (deserialize_data_bedrock_tile version)
unfolding serialize_data_bedrock_tile deserialize_data_bedrock_tile
data_bedrock_tile-Carries version x h = next _ (skipped (omega arith)) (
    next _ (when _ _ _ u32 h.0) (
      next _ (when _ _ _ u32 h.1)
        (next _ (when _ _ _ u32 h.2) (next _ (when _ _ _ u32 h.3) (last _ (when _ _ _ i32 h.4))))))
