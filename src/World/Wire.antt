-- ===== src/World/Wire.antt =====
-- gtools/core/growtopia/world.py: `World.serialize`, and `World.deserialize` to its end or to the
-- first tile that cannot be read. `update_all_connection`, which only chooses textures, is left out.
use gtools.Prelude.{ℕ, zero, suc, Option, List, [], ◌∷◌, ℤ, pos, negsuc}
use gtools.Python.Exec.{Exec, Result, key_error, struct_error, pure, raise, map_ok, ◌>>=◌, ◌>>◌}
use gtools.Python.Struct.{Bytes, little, Floats}
use gtools.Buffer.Raw.{Buffer, make}
use gtools.Buffer.Values.{
  read_u8, read_u16, read_u32, read_f32, write_u8, write_u16, write_u32, write_f32, write_bytes,
}
use gtools.World.Dropped.{DroppedItem, Dropped}
use gtools.World.Extra.Loops.{write_text, write_each}
use gtools.World.Tile.{Cbor, Tile, serialize_tile_into}

-- The fields that stand in the bytes, the id, and the first tile that could not be read (-1 is
-- `none`). The weathers and the terraform are numbers, since their enums take any number.
pub record WorldData (J F : Type 0) : Type 0 where
  pub id : ℕ
  pub version : ℕ
  pub f : ℕ
  pub name : Bytes
  pub width : ℕ
  pub height : ℕ
  pub nb_tiles : ℕ
  pub unk2 : Bytes
  pub tiles : List (Tile J)
  pub unk4 : Bytes
  pub dropped : Dropped F
  pub default_weather : ℕ
  pub terraform : ℕ
  pub active_weather : ℕ
  pub unk8 : ℕ
  pub unk9 : ℕ
  pub garbage_start : Option ℕ

module _ {F : Type 0} ⦃fl : Floats F⦄ where
  unfoldable pub read_dropped : Exec Buffer (DroppedItem F)
  read_dropped = do
    id ← read_u16
    pos_x ← read_f32
    pos_y ← read_f32
    amount ← read_u8
    flags ← read_u8
    uid ← read_u32
    pure (record {
      id = id;
      pos_x = pos_x;
      pos_y = pos_y;
      amount = amount;
      flags = flags;
      uid = uid;
    })

  unfoldable pub write_dropped : DroppedItem F → Exec Buffer Unit
  write_dropped x = do
    write_u16 x.id
    write_f32 x.pos_x
    write_f32 x.pos_y
    write_u8 x.amount
    write_u8 x.flags
    write_u32 x.uid

-- `write_u32` of a count that may have gone below 0.
unfoldable pub write_count : ℤ → Exec Buffer Unit
write_count (pos n) = write_u32 n
write_count (negsuc n) = raise struct_error

-- The part behind the tiles.
unfoldable pub write_rest : {J F : Type 0} ⦃fl : Floats F⦄ → WorldData J F → Exec Buffer Unit
write_rest w = do
  write_bytes w.unk4
  write_count w.dropped.nb_items
  write_u32 w.dropped.last_uid
  write_each write_dropped w.dropped.items
  write_u16 w.default_weather
  write_u16 w.terraform
  write_u16 w.active_weather
  write_u16 w.unk8
  write_u32 w.unk9

module _ {J : Type 0} (cbor : Cbor J) where
  -- `self.tiles[i]` for the first n numbers i, where the tiles stand under 0, 1, 2, …
  unfoldable pub write_tiles : ℕ → ℕ → List (Tile J) → Exec Buffer Unit
  write_tiles version zero tiles = pure tt
  write_tiles version (suc n) [] = raise key_error
  write_tiles version (suc n) (t ∷ tiles) = do
    serialize_tile_into cbor version t
    write_tiles version n tiles

  unfoldable pub serialize_world_into :
      {F : Type 0} ⦃fl : Floats F⦄ → WorldData J F → Exec Buffer Unit
  serialize_world_into w = do
    write_u16 w.version
    write_u32 w.f
    write_text w.name
    write_u32 w.width
    write_u32 w.height
    write_u32 w.nb_tiles
    write_bytes w.unk2
    write_tiles w.version w.nb_tiles w.tiles
    write_rest w

  unfoldable pub serialize_world : {F : Type 0} ⦃fl : Floats F⦄ → WorldData J F → Result Bytes
  serialize_world w =
      let (r, t) = serialize_world_into w (make [] little) in map_ok (λ _. t.buffer) r
