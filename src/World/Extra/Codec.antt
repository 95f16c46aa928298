-- ===== src/World/Extra/Codec.antt =====
-- gtools/core/growtopia/world.py: `TileExtra.deserialize_extra`, `TileExtra.serialize_into` and
-- `TileExtra.serialize`. The item database is a parameter: the items that its data file names.
use gtools.Prelude.{
  ℕ, ◌/◌, ◌%◌, ◌^◌, Bool, not, ◌&&◌, if◌then◌else◌, ltb, ◌==◌, Option, none, some, [],
}
use gtools.Python.Exec.{
  Exec, Result, ok, err, key_error, not_implemented, pure, lift, raise, map_ok, ◌>>=◌, ◌>>◌,
}
use gtools.Python.Dict
use gtools.Python.Dict.{nat_eq}
use gtools.Python.Struct.{Bytes, little}
use gtools.Buffer.Raw.{Buffer, make}
use gtools.Buffer.Values.{read_u8, write_u8}
use gtools.World.Extra.Items.{data_starship_hull}
use gtools.World.Extra.Loops.{read_if}
use gtools.World.Extra.Guilds.{
  GuildItemTile, StarshipHullData, deserialize_guild_item_tile, serialize_guild_item_tile,
  deserialize_starship_hull_data, serialize_starship_hull_data,
}
use gtools.World.Extra.Bodies.{TileExtraBody, serialize_body}
use gtools.World.Extra.Registry.{registry}

-- What `deserialize_extra` looks at of an item.
pub record DatabaseItem : Type 0 where
  pub id : ℕ
  pub flags2 : ℕ

-- The attribute `data`. A guild item is itself a tile extra, with a type of its own; its own `data`
-- is never set.
pub data ExtraData : Type 0 where
  starship : StarshipHullData → ExtraData
  guild_item : ℕ → GuildItemTile → ExtraData

pub record TileExtra : Type 0 where
  pub type : ℕ
  pub body : TileExtraBody
  pub extra_data : Option ExtraData

abbrev pub guild_item_tile_type : ℕ
guild_item_tile_type = 0x41

-- `item.id == DATA_STARSHIP_HULL and format_version > 4`
abbrev pub has_starship : ℕ → DatabaseItem → Bool
has_starship version item = item.id == data_starship_hull && ltb 4 version

-- `type != TileExtraType.GUILD_ITEM_TILE` and `item.flags2 & ItemInfoFlag2.GUILD_ITEM != 0`
abbrev pub has_guild_item : ℕ → DatabaseItem → Bool
has_guild_item type item = not (type == guild_item_tile_type) && not (item.flags2 / 2 ^ 9 % 2 == 0)

unfoldable pub read_starship : ℕ → Exec Buffer (Option ExtraData)
read_starship version = do d ← deserialize_starship_hull_data version; pure (some (starship d))

-- A fresh extra has the type NONE, 0.
unfoldable pub read_guild_item : ℕ → Exec Buffer (Option ExtraData)
read_guild_item fg = do d ← deserialize_guild_item_tile fg; pure (some (guild_item 0 d))

abbrev pub handled : Option (Exec Buffer TileExtraBody) → Exec Buffer TileExtraBody
handled (some r) = r
handled none = raise not_implemented

-- `item_database.get(fg or bg)`
abbrev pub item_of : (ℕ → Option DatabaseItem) → ℕ → ℕ → Result DatabaseItem
item_of items fg bg = elim (items (if fg == 0 then bg else fg)) [
  | some i ↦ ok i
  | none ↦ err key_error
]

module _ (items : ℕ → Option DatabaseItem) where
  unfoldable pub deserialize_extra : ℕ → ℕ → ℕ → Exec Buffer TileExtra
  deserialize_extra fg bg version = do
    type ← read_u8
    body ← handled (Dict.lookup type (registry fg version))
    item ← lift (item_of items fg bg)
    hull ← read_if (has_starship version item) (read_starship version) none
    extra_data ← read_if (has_guild_item type item) (read_guild_item fg) hull
    pure (record { type = type; body = body; extra_data = extra_data })

-- `self.data.serialize_into`: a guild item is written as a tile extra, its type first.
unfoldable pub write_data : ℕ → ℕ → Option ExtraData → Exec Buffer Unit
write_data fg version none = pure tt
write_data fg version (some (starship d)) = serialize_starship_hull_data version d
write_data fg version (some (guild_item type d)) = do write_u8 type; serialize_guild_item_tile fg d

unfoldable pub serialize_into : ℕ → ℕ → TileExtra → Exec Buffer Unit
serialize_into fg version x = do
  write_u8 x.type
  serialize_body fg version x.body
  write_data fg version x.extra_data

unfoldable pub serialize_extra : ℕ → ℕ → TileExtra → Result Bytes
serialize_extra fg version x =
    let (r, t) = serialize_into fg version x (make [] little) in map_ok (λ _. t.buffer) r
