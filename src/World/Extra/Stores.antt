-- ===== src/World/Extra/Stores.antt =====
-- gtools/core/growtopia/world.py: extras that hold a list of records: storage blocks, ovens and robots.
use gtools.Prelude.{ℕ, ◌*◌, ◌/◌, refl, leb, List, length, some, All, arith}
use gtools.Python.Exec.{Exec, pure, ◌>>=◌, ◌>>◌}
use gtools.Python.Struct.{Bytes}
use gtools.Buffer.Raw.{Buffer}
use gtools.Buffer.Values.{
  read_u16, read_u32, read_u64, read_bytes, write_u16, write_u32, write_u64, write_bytes,
}
use gtools.World.Extra.Loops.{
  read_many, write_each, read_if, write_if, IsU16, IsU32, IsU64, IsRun, Kept,
}
use gtools.World.Extra.Carried.{AllCarry, next, last, u16, u32, u64, run, when, each}

pub record StorageBlockItemInfo : Type 0 where
  pub unk1 : Bytes
  pub id : ℕ
  pub unk2 : ℕ
  pub amount : ℕ

unfoldable pub deserialize_storage_block_item_info : Exec Buffer StorageBlockItemInfo
deserialize_storage_block_item_info = do
  unk1 ← read_bytes (some 3)
  id ← read_u32
  unk2 ← read_u16
  amount ← read_u32
  pure (record { unk1 = unk1; id = id; unk2 = unk2; amount = amount })

unfoldable pub serialize_storage_block_item_info : StorageBlockItemInfo → Exec Buffer Unit
serialize_storage_block_item_info x = do
  write_bytes x.unk1
  write_u32 x.id
  write_u16 x.unk2
  write_u32 x.amount

abbrev pub StorageBlockItemInfoFits : StorageBlockItemInfo → Type 0
StorageBlockItemInfoFits x = IsRun 3 x.unk1 × IsU32 x.id × IsU16 x.unk2 × IsU32 x.amount

pub storage_block_item_info-Carries :
    AllCarry StorageBlockItemInfoFits serialize_storage_block_item_info
      deserialize_storage_block_item_info
unfolding serialize_storage_block_item_info deserialize_storage_block_item_info
storage_block_item_info-Carries x h =
    next _ (run 3 h.0) (next _ (u32 h.1) (next _ (u16 h.2) (last _ (u32 h.3))))

pub record StorageBlockTile : Type 0 where
  pub items : List StorageBlockItemInfo

unfoldable pub deserialize_storage_block_tile : Exec Buffer StorageBlockTile
deserialize_storage_block_tile = do
  count ← read_u16
  items ← read_many (count / 13) deserialize_storage_block_item_info
  pure (record { items = items })

unfoldable pub serialize_storage_block_tile : StorageBlockTile → Exec Buffer Unit
serialize_storage_block_tile x = do
  write_u16 (length x.items * 13)
  write_each serialize_storage_block_item_info x.items

abbrev pub StorageBlockTileFits : StorageBlockTile → Type 0
StorageBlockTileFits x = IsU16 (length x.items * 13) × All StorageBlockItemInfoFits x.items

pub storage_block_tile-Carries :
    AllCarry StorageBlockTileFits serialize_storage_block_tile deserialize_storage_block_tile
unfolding serialize_storage_block_tile deserialize_storage_block_tile
storage_block_tile-Carries x h =
    next _ (u16 h.0) (last _ (each _ storage_block_item_info-Carries (omega arith) h.1))

pub record CookingOvenIngredientInfo : Type 0 where
  pub item_id : ℕ
  pub amount : ℕ

unfoldable pub deserialize_cooking_oven_ingredient_info : Exec Buffer CookingOvenIngredientInfo
deserialize_cooking_oven_ingredient_info = do
  item_id ← read_u16
  amount ← read_u16
  pure (record { item_id = item_id; amount = amount })

unfoldable pub serialize_cooking_oven_ingredient_info : CookingOvenIngredientInfo → Exec Buffer Unit
serialize_cooking_oven_ingredient_info x = do write_u16 x.item_id; write_u16 x.amount

abbrev pub CookingOvenIngredientInfoFits : CookingOvenIngredientInfo → Type 0
CookingOvenIngredientInfoFits x = IsU16 x.item_id × IsU16 x.amount

pub cooking_oven_ingredient_info-Carries :
    AllCarry CookingOvenIngredientInfoFits serialize_cooking_oven_ingredient_info
      deserialize_cooking_oven_ingredient_info
unfolding serialize_cooking_oven_ingredient_info deserialize_cooking_oven_ingredient_info
cooking_oven_ingredient_info-Carries x h = next _ (u16 h.0) (last _ (u16 h.1))

pub record CookingOvenTile : Type 0 where
  pub temperature_level : ℕ
  pub ingredients : List CookingOvenIngredientInfo
  pub unk1 : ℕ
  pub unk2 : ℕ

unfoldable pub deserialize_cooking_oven_tile : ℕ → Exec Buffer CookingOvenTile
deserialize_cooking_oven_tile version = do
  temperature_level ← read_u32
  count ← read_u32
  ingredients ← read_many count deserialize_cooking_oven_ingredient_info
  unk1 ← read_u32
  unk2 ← read_if (leb 14 version) read_u64 0
  pure (record {
    temperature_level = temperature_level;
    ingredients = ingredients;
    unk1 = unk1;
    unk2 = unk2;
  })

unfoldable pub serialize_cooking_oven_tile : ℕ → CookingOvenTile → Exec Buffer Unit
serialize_cooking_oven_tile version x = do
  write_u32 x.temperature_level
  write_u32 (length x.ingredients)
  write_each serialize_cooking_oven_ingredient_info x.ingredients
  write_u32 x.unk1
  write_if (leb 14 version) (write_u64 x.unk2)

abbrev pub CookingOvenTileFits : ℕ → CookingOvenTile → Type 0
CookingOvenTileFits version x =
    IsU32 x.temperature_level
    × IsU32 (length x.ingredients)
    × All CookingOvenIngredientInfoFits x.ingredients
    × IsU32 x.unk1
    × Kept (leb 14 version) (IsU64 x.unk2) x.unk2 0

pub cooking_oven_tile-Carries :
    (version : ℕ)
    → AllCarry
        (CookingOvenTileFits version)
        (serialize_cooking_oven_tile version)
        (deserialize_cooking_oven_tile version)
unfolding serialize_cooking_oven_tile deserialize_cooking_oven_tile
cooking_oven_tile-Carries version x h = next _ (u32 h.0) (
    next _ (u32 h.1) (
      next _ (each _ cooking_oven_ingredient_info-Carries refl h.2)
        (next _ (u32 h.3) (last _ (when _ _ _ u64 h.4)))))

pub record CyBotCommandData : Type 0 where
  pub command_id : ℕ
  pub is_command_used : ℕ
  pub unk1 : Bytes

unfoldable pub deserialize_cybot_command_data : Exec Buffer CyBotCommandData
deserialize_cybot_command_data = do
  command_id ← read_u32
  is_command_used ← read_u32
  unk1 ← read_bytes (some 7)
  pure (record { command_id = command_id; is_command_used = is_command_used; unk1 = unk1 })

unfoldable pub serialize_cybot_command_data : CyBotCommandData → Exec Buffer Unit
serialize_cybot_command_data x = do
  write_u32 x.command_id
  write_u32 x.is_command_used
  write_bytes x.unk1

abbrev pub CyBotCommandDataFits : CyBotCommandData → Type 0
CyBotCommandDataFits x = IsU32 x.command_id × IsU32 x.is_command_used × IsRun 7 x.unk1

pub cybot_command_data-Carries :
    AllCarry CyBotCommandDataFits serialize_cybot_command_data deserialize_cybot_command_data
unfolding serialize_cybot_command_data deserialize_cybot_command_data
cybot_command_data-Carries x h = next _ (u32 h.0) (next _ (u32 h.1) (last _ (run 7 h.2)))

pub record CybotTile : Type 0 where
  pub commands : List CyBotCommandData
  pub sync_timer : ℕ
  pub activated : ℕ

unfoldable pub deserialize_cybot_tile : Exec Buffer CybotTile
deserialize_cybot_tile = do
  count ← read_u32
  commands ← read_many count deserialize_cybot_command_data
  sync_timer ← read_u32
  activated ← read_u32
  pure (record { commands = commands; sync_timer = sync_timer; activated = activated })

unfoldable pub serialize_cybot_tile : CybotTile → Exec Buffer Unit
serialize_cybot_tile x = do
  write_u32 (length x.commands)
  write_each serialize_cybot_command_data x.commands
  write_u32 x.sync_timer
  write_u32 x.activated

abbrev pub CybotTileFits : CybotTile → Type 0
CybotTileFits x =
    IsU32 (length x.commands)
    × All CyBotCommandDataFits x.commands
    × IsU32 x.sync_timer
    × IsU32 x.activated

pub cybot_tile-Carries : AllCarry CybotTileFits serialize_cybot_tile deserialize_cybot_tile
unfolding serialize_cybot_tile deserialize_cybot_tile
cybot_tile-Carries x h =
    next _ (u32 h.0)
      (next _ (each _ cybot_command_data-Carries refl h.1) (next _ (u32 h.2) (last _ (u32 h.3))))
