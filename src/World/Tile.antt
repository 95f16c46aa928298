-- ===== src/World/Tile.antt =====
-- gtools/core/growtopia/world.py: `Tile.deserialize`, `Tile.serialize_into` and `Tile.serialize`, over
-- the fields that stand in a tile's bytes. The item database and the CBOR library are parameters.
use gtools.Prelude.{
  ℕ, ◌-◌, ◌/◌, ◌%◌, Bool, false, not, ◌||◌, ltb, ◌==◌, Option, none, some, List, [], ◌∷◌,
}
use gtools.Python.Exec.{
  Exec, Result, value_error, pure, lift, gets, modify, require, map_ok, ◌>>=◌, ◌>>◌,
}
use gtools.Python.Struct.{Bytes, little}
use gtools.Buffer.Raw.{Buffer, make}
use gtools.Buffer.Values.{read_u16, read_bytes, read_pascal_bytes, write_u16, write_pascal_bytes}
use gtools.World.Extra.Loops.{read_if, write_if}
use gtools.World.Extra.Codec.{
  DatabaseItem, TileExtra, deserialize_extra, serialize_into as serialize_extra_into,
}

-- What the tiles use of `item_database`.
pub record ItemDatabase : Type 0 where
  pub get : ℕ → Option DatabaseItem
  pub item_count : ℕ

-- `cbor2`: the values that it can load and dump, and the empty dictionary.
pub record Cbor (J : Type 0) : Type 0 where
  pub empty : J
  pub loads : Bytes → Result J
  pub dumps : J → Result Bytes

pub record Tile (J : Type 0) : Type 0 where
  pub fg_id : ℕ
  pub bg_id : ℕ
  pub lock_index : ℕ
  pub parent_index : ℕ
  pub flags : ℕ
  pub extra : Option TileExtra
  pub extra_raw : Bytes
  pub json_data : J

-- PARTY_PROJECTOR to BOUNTIFUL_GROWTOPIAN_EATING_LOOMING_PLANT_ROOTS
abbrev pub cbor_ids : List ℕ
cbor_ids =
    15376 ∷ 15546 ∷ 3548 ∷ 14662 ∷ 14666 ∷ 8624 ∷ 8630 ∷ 8636 ∷ 8642 ∷ 8648 ∷ 8654 ∷ 8660 ∷ 8666
    ∷ 8672 ∷ 8678 ∷ 8684 ∷ 8690 ∷ 8696 ∷ 8702 ∷ 8708 ∷ 8714 ∷ []

unfoldable pub is_in : ℕ → List ℕ → Bool
is_in i [] = false
is_in i (j ∷ js) = i == j || is_in i js

-- `flags & TileFlags.HAS_EXTRA_DATA` and `flags & TileFlags.LOCKED`
unfoldable pub has_extra_data : ℕ → Bool
has_extra_data flags = not (flags % 2 == 0)

unfoldable pub is_locked : ℕ → Bool
is_locked flags = not (flags / 2 % 2 == 0)

-- What was read once more as bytes: `s.rpos = start` and `s.read_bytes(extra_size)`.
unfoldable pub with_raw : {A : Type 0} → Exec Buffer A → Exec Buffer (A × Bytes)
with_raw r = do
  start ← gets (λ s. s.rpos)
  x ← r
  end ← gets (λ s. s.rpos)
  modify (λ s. record s { rpos = start })
  raw ← read_bytes (some (end - start))
  pure (x, raw)

unfoldable pub read_extra :
    (ℕ → Option DatabaseItem) → ℕ → ℕ → ℕ → Exec Buffer (Option TileExtra × Bytes)
read_extra items fg bg version = do
  x ← with_raw (deserialize_extra items fg bg version)
  pure (some x.0, x.1)

unfoldable pub write_extra : ℕ → ℕ → Option TileExtra → Exec Buffer Unit
write_extra fg version none = pure tt
write_extra fg version (some x) = serialize_extra_into fg version x

module _ {J : Type 0} (cbor : Cbor J) where
  unfoldable pub read_json : Exec Buffer J
  read_json = do b ← read_pascal_bytes 4; lift (cbor.loads b)

  unfoldable pub write_json : J → Exec Buffer Unit
  write_json j = do b ← lift (cbor.dumps j); write_pascal_bytes 4 b

  -- `strict` refuses the ids that are above the number of items.
  abbrev pub is_legal : ItemDatabase → Bool → ℕ → Bool
  is_legal db strict id = not strict || not (ltb db.item_count id)

  unfoldable pub deserialize_tile : ItemDatabase → ℕ → Bool → Exec Buffer (Tile J)
  deserialize_tile db version strict = do
    fg_id ← read_u16
    bg_id ← read_u16
    require (is_legal db strict fg_id) value_error
    require (is_legal db strict bg_id) value_error
    parent_index ← read_u16
    flags ← read_u16
    lock_index ← read_if (is_locked flags) read_u16 0
    extra ← read_if (has_extra_data flags) (read_extra db.get fg_id bg_id version) (none, [])
    json_data ← read_if (is_in fg_id cbor_ids) read_json cbor.empty
    pure (record {
      fg_id = fg_id;
      bg_id = bg_id;
      lock_index = lock_index;
      parent_index = parent_index;
      flags = flags;
      extra = extra.0;
      extra_raw = extra.1;
      json_data = json_data;
    })

  unfoldable pub serialize_tile_into : ℕ → Tile J → Exec Buffer Unit
  serialize_tile_into version x = do
    write_u16 x.fg_id
    write_u16 x.bg_id
    write_u16 x.parent_index
    write_u16 x.flags
    write_if (is_locked x.flags) (write_u16 x.lock_index)
    write_if (has_extra_data x.flags) (write_extra x.fg_id version x.extra)
    write_if (is_in x.fg_id cbor_ids) (write_json x.json_data)

  unfoldable pub serialize_tile : ℕ → Tile J → Result Bytes
  serialize_tile version x =
      let (r, t) = serialize_tile_into version x (make [] little) in map_ok (λ _. t.buffer) r
