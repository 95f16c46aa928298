-- ===== src/World/Extra/Shops.antt =====
-- gtools/core/growtopia/world.py: blocks that show, sell or give an item.
use gtools.Prelude.{ℕ, ℤ}
use gtools.Python.Exec.{Exec, pure, ◌>>=◌, ◌>>◌}
use gtools.Buffer.Raw.{Buffer}
use gtools.Buffer.Values.{
  read_u8, read_u16, read_u32, read_i32, write_u8, write_u16, write_u32, write_i32,
}
use gtools.World.Extra.Loops.{IsU8, IsU16, IsU32, IsI32}
use gtools.World.Extra.Carried.{AllCarry, next, last, u8, u16, u32, i32}

pub record DisplayBlockTile : Type 0 where
  pub item_id : ℕ

unfoldable pub deserialize_display_block_tile : Exec Buffer DisplayBlockTile
deserialize_display_block_tile = do item_id ← read_u32; pure (record { item_id = item_id })

unfoldable pub serialize_display_block_tile : DisplayBlockTile → Exec Buffer Unit
serialize_display_block_tile x = write_u32 x.item_id

abbrev pub DisplayBlockTileFits : DisplayBlockTile → Type 0
DisplayBlockTileFits x = IsU32 x.item_id

pub display_block_tile-Carries :
    AllCarry DisplayBlockTileFits serialize_display_block_tile deserialize_display_block_tile
unfolding serialize_display_block_tile deserialize_display_block_tile
display_block_tile-Carries x h = last _ (u32 h)

pub record VendingMachineTile : Type 0 where
  pub item_id : ℕ
  pub price : ℤ

unfoldable pub deserialize_vending_machine_tile : Exec Buffer VendingMachineTile
deserialize_vending_machine_tile = do
  item_id ← read_u32
  price ← read_i32
  pure (record { item_id = item_id; price = price })

unfoldable pub serialize_vending_machine_tile : VendingMachineTile → Exec Buffer Unit
serialize_vending_machine_tile x = do write_u32 x.item_id; write_i32 x.price

abbrev pub VendingMachineTileFits : VendingMachineTile → Type 0
VendingMachineTileFits x = IsU32 x.item_id × IsI32 x.price

pub vending_machine_tile-Carries :
    AllCarry VendingMachineTileFits serialize_vending_machine_tile deserialize_vending_machine_tile
unfolding serialize_vending_machine_tile deserialize_vending_machine_tile
vending_machine_tile-Carries x h = next _ (u32 h.0) (last _ (i32 h.1))

pub record GivingTreeTile : Type 0 where
  pub unk1 : ℕ
  pub unk2 : ℕ

unfoldable pub deserialize_giving_tree_tile : Exec Buffer GivingTreeTile
deserialize_giving_tree_tile = do
  unk1 ← read_u16
  unk2 ← read_u32
  pure (record { unk1 = unk1; unk2 = unk2 })

unfoldable pub serialize_giving_tree_tile : GivingTreeTile → Exec Buffer Unit
serialize_giving_tree_tile x = do write_u16 x.unk1; write_u32 x.unk2

abbrev pub GivingTreeTileFits : GivingTreeTile → Type 0
GivingTreeTileFits x = IsU16 x.unk1 × IsU32 x.unk2

pub giving_tree_tile-Carries :
    AllCarry GivingTreeTileFits serialize_giving_tree_tile deserialize_giving_tree_tile
unfolding serialize_giving_tree_tile deserialize_giving_tree_tile
giving_tree_tile-Carries x h = next _ (u16 h.0) (last _ (u32 h.1))

pub record WeatherMachineTile : Type 0 where
  pub item_id : ℕ

unfoldable pub deserialize_weather_machine_tile : Exec Buffer WeatherMachineTile
deserialize_weather_machine_tile = do item_id ← read_u32; pure (record { item_id = item_id })

unfoldable pub serialize_weather_machine_tile : WeatherMachineTile → Exec Buffer Unit
serialize_weather_machine_tile x = write_u32 x.item_id

abbrev pub WeatherMachineTileFits : WeatherMachineTile → Type 0
WeatherMachineTileFits x = IsU32 x.item_id

pub weather_machine_tile-Carries :
    AllCarry WeatherMachineTileFits serialize_weather_machine_tile deserialize_weather_machine_tile
unfolding serialize_weather_machine_tile deserialize_weather_machine_tile
weather_machine_tile-Carries x h = last _ (u32 h)

pub record SolarCollectorTile : Type 0 where
  pub unk1 : ℕ
  pub unk2 : ℕ

unfoldable pub deserialize_solar_collector_tile : Exec Buffer SolarCollectorTile
deserialize_solar_collector_tile = do
  unk1 ← read_u8
  unk2 ← read_u32
  pure (record { unk1 = unk1; unk2 = unk2 })

unfoldable pub serialize_solar_collector_tile : SolarCollectorTile → Exec Buffer Unit
serialize_solar_collector_tile x = do write_u8 x.unk1; write_u32 x.unk2

abbrev pub SolarCollectorTileFits : SolarCollectorTile → Type 0
SolarCollectorTileFits x = IsU8 x.unk1 × IsU32 x.unk2

pub solar_collector_tile-Carries :
    AllCarry SolarCollectorTileFits serialize_solar_collector_tile deserialize_solar_collector_tile
unfolding serialize_solar_collector_tile deserialize_solar_collector_tile
solar_collector_tile-Carries x h = next _ (u8 h.0) (last _ (u32 h.1))

pub record ShelfTile : Type 0 where
  pub top_left_item_id : ℕ
  pub top_right_item_id : ℕ
  pub bottom_left_item_id : ℕ
  pub bottom_right_item_id : ℕ

unfoldable pub deserialize_shelf_tile : Exec Buffer ShelfTile
deserialize_shelf_tile = do
  top_left_item_id ← read_u32
  top_right_item_id ← read_u32
  bottom_left_item_id ← read_u32
  bottom_right_item_id ← read_u32
  pure (record {
    top_left_item_id = top_left_item_id;
    top_right_item_id = top_right_item_id;
    bottom_left_item_id = bottom_left_item_id;
    bottom_right_item_id = bottom_right_item_id;
  })

unfoldable pub serialize_shelf_tile : ShelfTile → Exec Buffer Unit
serialize_shelf_tile x = do
  write_u32 x.top_left_item_id
  write_u32 x.top_right_item_id
  write_u32 x.bottom_left_item_id
  write_u32 x.bottom_right_item_id

abbrev pub ShelfTileFits : ShelfTile → Type 0
ShelfTileFits x =
    IsU32 x.top_left_item_id
    × IsU32 x.top_right_item_id
    × IsU32 x.bottom_left_item_id
    × IsU32 x.bottom_right_item_id

pub shelf_tile-Carries : AllCarry ShelfTileFits serialize_shelf_tile deserialize_shelf_tile
unfolding serialize_shelf_tile deserialize_shelf_tile
shelf_tile-Carries x h = next _ (u32 h.0) (next _ (u32 h.1) (next _ (u32 h.2) (last _ (u32 h.3))))
