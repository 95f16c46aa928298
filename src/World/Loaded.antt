-- ===== src/World/Loaded.antt =====
-- Worlds are read back as they were written.
use gtools.Prelude.{ℕ, ◌≡◌, Bool, true, not, ◌==◌, none, All, length, pos}
use gtools.Python.Exec.{Exec}
use gtools.Python.Struct.{Floats}
use gtools.Python.Struct.Laws.{IsExact}
use gtools.Buffer.Raw.{Buffer}
use gtools.World.Dropped.{DroppedItem}
use gtools.World.Extra.Loops.{IsU8, IsU16, IsU32, IsText, IsRun}
use gtools.World.Tile.{ItemDatabase, Cbor, Tile}
use gtools.World.Tiles.{TileFits}
use gtools.World.Wire.{WorldData}

module _ {F : Type 0} ⦃fl : Floats F⦄ where
  pub record DroppedFits (x : DroppedItem F) : Type 0 where
    pub id : IsU16 x.id
    pub pos_x : IsExact 4 x.pos_x
    pub pos_y : IsExact 4 x.pos_y
    pub amount : IsU8 x.amount
    pub flags : IsU8 x.flags
    pub uid : IsU32 x.uid

module _ {J : Type 0} (cbor : Cbor J) (db : ItemDatabase) where
  module _ {F : Type 0} ⦃fl : Floats F⦄ (within : ℕ → F → Bool) where
    pub record WorldFits (w : WorldData J F) : Type 0 where
      pub version : IsU16 w.version
      pub f : IsU32 w.f
      pub name : IsText w.name
      pub width : IsU32 w.width
      pub height : IsU32 w.height
      pub nb_tiles : IsU32 w.nb_tiles
      pub unk2 : IsRun 5 w.unk2
      pub counted : w.nb_tiles ≡ length w.tiles
      pub wide : not (w.width == 0) ≡ true
      pub tiles : All (TileFits cbor db w.version true) w.tiles
      pub unk4 : IsRun 12 w.unk4
      pub nb_items : w.dropped.nb_items ≡ pos (length w.dropped.items)
      pub few : IsU32 (length w.dropped.items)
      pub last_uid : IsU32 w.dropped.last_uid
      pub items : All DroppedFits w.dropped.items
      pub default_weather : IsU16 w.default_weather
      pub terraform : IsU16 w.terraform
      pub active_weather : IsU16 w.active_weather
      pub unk8 : IsU16 w.unk8
      pub unk9 : IsU32 w.unk9
      pub whole : w.garbage_start ≡ none
