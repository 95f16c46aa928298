-- ===== src/World/Extra/Blocks.antt =====
-- gtools/core/growtopia/world.py: blocks that change with time or with what is fed to them.
use gtools.Prelude.{ℕ, ◌≡◌, refl, List, length, All, arith}
use gtools.Python.Exec.{Exec, pure, ◌>>=◌, ◌>>◌}
use gtools.Python.Struct.{Bytes}
use gtools.Buffer.Raw.{Buffer}
use gtools.Buffer.Values.{read_u8, read_u32, write_u8, write_u32}
use gtools.World.Extra.Loops.{read_text, write_text, read_many, write_each, IsU8, IsU32, IsText}
use gtools.World.Extra.Carried.{AllCarry, next, last, u8, u32, text, each}

pub record TemporaryPlatformTile : Type 0 where
  pub time_ms : ℕ

unfoldable pub deserialize_temporary_platform_tile : Exec Buffer TemporaryPlatformTile
deserialize_temporary_platform_tile = do read_u32; pure (record { time_ms = 0 })

unfoldable pub serialize_temporary_platform_tile : TemporaryPlatformTile → Exec Buffer Unit
serialize_temporary_platform_tile x = write_u32 x.time_ms

abbrev pub TemporaryPlatformTileFits : TemporaryPlatformTile → Type 0
TemporaryPlatformTileFits x = x ≡ record { time_ms = 0 }

pub temporary_platform_tile-Carries :
    AllCarry TemporaryPlatformTileFits serialize_temporary_platform_tile
      deserialize_temporary_platform_tile
unfolding serialize_temporary_platform_tile deserialize_temporary_platform_tile
temporary_platform_tile-Carries x h = rw h (last _ (u32 (omega arith)))

pub record GrowscanTile : Type 0 where
  pub unk1 : ℕ

unfoldable pub deserialize_growscan_tile : Exec Buffer GrowscanTile
deserialize_growscan_tile = do unk1 ← read_u8; pure (record { unk1 = unk1 })

unfoldable pub serialize_growscan_tile : GrowscanTile → Exec Buffer Unit
serialize_growscan_tile x = write_u8 x.unk1

abbrev pub GrowscanTileFits : GrowscanTile → Type 0
GrowscanTileFits x = IsU8 x.unk1

pub growscan_tile-Carries :
    AllCarry GrowscanTileFits serialize_growscan_tile deserialize_growscan_tile
unfolding serialize_growscan_tile deserialize_growscan_tile
growscan_tile-Carries x h = last _ (u8 h)

pub record CompletionistTile : Type 0 where
  pub unk1 : ℕ

unfoldable pub deserialize_completionist_tile : Exec Buffer CompletionistTile
deserialize_completionist_tile = do unk1 ← read_u32; pure (record { unk1 = unk1 })

unfoldable pub serialize_completionist_tile : CompletionistTile → Exec Buffer Unit
serialize_completionist_tile x = write_u32 x.unk1

abbrev pub CompletionistTileFits : CompletionistTile → Type 0
CompletionistTileFits x = IsU32 x.unk1

pub completionist_tile-Carries :
    AllCarry CompletionistTileFits serialize_completionist_tile deserialize_completionist_tile
unfolding serialize_completionist_tile deserialize_completionist_tile
completionist_tile-Carries x h = last _ (u32 h)

pub record PineappleGuzzlerTile : Type 0 where
  pub pineapple_fed : ℕ

unfoldable pub deserialize_pineapple_guzzler_tile : Exec Buffer PineappleGuzzlerTile
deserialize_pineapple_guzzler_tile = do
  pineapple_fed ← read_u32
  pure (record { pineapple_fed = pineapple_fed })

unfoldable pub serialize_pineapple_guzzler_tile : PineappleGuzzlerTile → Exec Buffer Unit
serialize_pineapple_guzzler_tile x = write_u32 x.pineapple_fed

abbrev pub PineappleGuzzlerTileFits : PineappleGuzzlerTile → Type 0
PineappleGuzzlerTileFits x = IsU32 x.pineapple_fed

pub pineapple_guzzler_tile-Carries :
    AllCarry PineappleGuzzlerTileFits serialize_pineapple_guzzler_tile
      deserialize_pineapple_guzzler_tile
unfolding serialize_pineapple_guzzler_tile deserialize_pineapple_guzzler_tile
pineapple_guzzler_tile-Carries x h = last _ (u32 h)

pub record KrankenGalaticBlockTile : Type 0 where
  pub pattern_index : ℕ
  pub unk1 : ℕ
  pub r : ℕ
  pub g : ℕ
  pub b : ℕ

unfoldable pub deserialize_kranken_galatic_block_tile : Exec Buffer KrankenGalaticBlockTile
deserialize_kranken_galatic_block_tile = do
  pattern_index ← read_u8
  unk1 ← read_u32
  r ← read_u8
  g ← read_u8
  b ← read_u8
  pure (record { pattern_index = pattern_index; unk1 = unk1; r = r; g = g; b = b })

unfoldable pub serialize_kranken_galatic_block_tile : KrankenGalaticBlockTile → Exec Buffer Unit
serialize_kranken_galatic_block_tile x = do
  write_u8 x.pattern_index
  write_u32 x.unk1
  write_u8 x.r
  write_u8 x.g
  write_u8 x.b

abbrev pub KrankenGalaticBlockTileFits : KrankenGalaticBlockTile → Type 0
KrankenGalaticBlockTileFits x = IsU8 x.pattern_index × IsU32 x.unk1 × IsU8 x.r × IsU8 x.g × IsU8 x.b

pub kranken_galatic_block_tile-Carries :
    AllCarry KrankenGalaticBlockTileFits serialize_kranken_galatic_block_tile
      deserialize_kranken_galatic_block_tile
unfolding serialize_kranken_galatic_block_tile deserialize_kranken_galatic_block_tile
kranken_galatic_block_tile-Carries x h =
    next _ (u8 h.0) (next _ (u32 h.1) (next _ (u8 h.2) (next _ (u8 h.3) (last _ (u8 h.4)))))

pub record ContainmentFieldPowerNodeTile : Type 0 where
  pub time_ms : ℕ
  pub unk1 : List ℕ

unfoldable pub deserialize_containment_field_power_node_tile :
    Exec Buffer ContainmentFieldPowerNodeTile
deserialize_containment_field_power_node_tile = do
  time_ms ← read_u32
  count ← read_u32
  unk1 ← read_many count read_u32
  pure (record { time_ms = time_ms; unk1 = unk1 })

unfoldable pub serialize_containment_field_power_node_tile :
    ContainmentFieldPowerNodeTile → Exec Buffer Unit
serialize_containment_field_power_node_tile x = do
  write_u32 x.time_ms
  write_u32 (length x.unk1)
  write_each write_u32 x.unk1

abbrev pub ContainmentFieldPowerNodeTileFits : ContainmentFieldPowerNodeTile → Type 0
ContainmentFieldPowerNodeTileFits x = IsU32 x.time_ms × IsU32 (length x.unk1) × All IsU32 x.unk1

pub containment_field_power_node_tile-Carries :
    AllCarry ContainmentFieldPowerNodeTileFits serialize_containment_field_power_node_tile
      deserialize_containment_field_power_node_tile
unfolding serialize_containment_field_power_node_tile deserialize_containment_field_power_node_tile
containment_field_power_node_tile-Carries x h =
    next _ (u32 h.0) (next _ (u32 h.1) (last _ (each _ (λ _. u32) refl h.2)))

pub record SpiritBoardTile : Type 0 where
  pub unk1 : ℕ
  pub unk2 : Bytes
  pub unk3 : Bytes
  pub unk4 : List ℕ

unfoldable pub deserialize_spirit_board_tile : Exec Buffer SpiritBoardTile
deserialize_spirit_board_tile = do
  unk1 ← read_u32
  unk2 ← read_text
  unk3 ← read_text
  count ← read_u32
  unk4 ← read_many count read_u32
  pure (record { unk1 = unk1; unk2 = unk2; unk3 = unk3; unk4 = unk4 })

unfoldable pub serialize_spirit_board_tile : SpiritBoardTile → Exec Buffer Unit
serialize_spirit_board_tile x = do
  write_u32 x.unk1
  write_text x.unk2
  write_text x.unk3
  write_u32 (length x.unk4)
  write_each write_u32 x.unk4

abbrev pub SpiritBoardTileFits : SpiritBoardTile → Type 0
SpiritBoardTileFits x =
    IsU32 x.unk1 × IsText x.unk2 × IsText x.unk3 × IsU32 (length x.unk4) × All IsU32 x.unk4

pub spirit_board_tile-Carries :
    AllCarry SpiritBoardTileFits serialize_spirit_board_tile deserialize_spirit_board_tile
unfolding serialize_spirit_board_tile deserialize_spirit_board_tile
spirit_board_tile-Carries x h =
    next _ (u32 h.0) (
      next _ (text h.1)
        (next _ (text h.2) (next _ (u32 h.3) (last _ (each _ (λ _. u32) refl h.4)))))
