-- ===== src/Tests/TileTests.antt =====
-- Tiles and tile extras on a small item database; CBOR data is taken as its bytes.
use gtools.Prelude.{◌≡◌, ◌≢◌, refl, true, [], ◌∷◌, none, some, arith, pos, negsuc}
use gtools.Python.Exec.{Exec, ok}
use gtools.Python.Dict
use gtools.Python.Dict.{nat_eq}
use gtools.Python.Struct.{Bytes, little, pack_unsigned, arrange}
use gtools.Python.Struct.Words.{le_bytes, le_value, of_word}
use gtools.Buffer.Raw.{Buffer, make, read_raw, write_raw}
use gtools.Buffer.Values.{read_fmt, write_fmt}
use gtools.World.Extra.Counters.{serialize_seed_tile}
use gtools.World.Extra.Locks.{LockTile, bpm_of, set_bpm, deserialize_lock_tile}
use gtools.World.Extra.Loops.{read_many, read_if}
use gtools.World.Extra.Tempo.{tempos, set_bpm_unreadable}
use gtools.World.Extra.Bodies.{TileExtraBody, seed_tile, class_type, serialize_body, BodyFits}
use gtools.World.Extra.Registry.{registry}
use gtools.World.Extra.ItemTypes.{from_item_type, iteminfo_to_tileextra, registry-from_item_type}
use gtools.World.Extra.Codec.{
  TileExtra, starship, deserialize_extra, serialize_extra, serialize_into, write_data,
}
use gtools.World.Extra.RoundTrip.{ExtraFits, deserialize_extra-serialize_extra}
use gtools.World.Tile.{
  ItemDatabase, Cbor, Tile, deserialize_tile, serialize_tile, is_locked, has_extra_data, is_in,
}
use gtools.World.Tiles.{TileFits, deserialize_tile-serialize_tile}

abbrev pub shelf : ItemDatabase
shelf = record { get = λ id. some (record { id = id; flags2 = 0 }); item_count = 16000 }

abbrev pub raw_cbor : Cbor Bytes
raw_cbor = record { empty = []; loads = ok; dumps = ok }

abbrev hull_extra : TileExtra
hull_extra = record {
  type = 4;
  body = seed_tile (record { time_passed = 300; item_on_tree = 2 });
  extra_data = some (
      starship (record {
        unk1 = 1;
        unk2 = 2;
        unk3 = 3;
        unk4 = 4;
        unk5 = 5;
        unk6 = 6;
        unk7 = 0;
        unk8 = 0;
      }));
}

hull_extra-ExtraFits : ExtraFits shelf.get 6546 0 9 hull_extra
unfolding class_type BodyFits
hull_extra-ExtraFits = record {
  item = record { id = 6546; flags2 = 0 };
  known = refl;
  typed = refl;
  body = (omega arith, omega arith);
  hull = (omega arith, omega arith, omega arith, omega arith, omega arith, omega arith, refl, refl);
  no_guild_item = refl;
}

deserialize_extra-serialize_extra_example :
    (b : Bytes) × (serialize_extra 6546 9 hull_extra ≡ ok b)
    × ((deserialize_extra shelf.get 6546 0 9 (make b little)).0 ≡ ok hull_extra)
deserialize_extra-serialize_extra_example =
    deserialize_extra-serialize_extra shelf.get 6546 0 9 hull_extra hull_extra-ExtraFits

abbrev seed_extra : TileExtra
seed_extra = record {
  type = 4;
  body = seed_tile (record { time_passed = 300; item_on_tree = 2 });
  extra_data = none;
}

abbrev pub projector : Tile Bytes
projector = record {
  fg_id = 15376;
  bg_id = 14;
  lock_index = 7;
  parent_index = 0;
  flags = 3;
  extra = some seed_extra;
  extra_raw = 4 ∷ 44 ∷ 1 ∷ 0 ∷ 0 ∷ 2 ∷ [];
  json_data = 160 ∷ [];
}

pub projector-TileFits : TileFits raw_cbor shelf 20 true projector
unfolding class_type BodyFits is_locked has_extra_data is_in serialize_extra serialize_into
    serialize_body write_data serialize_seed_tile write_fmt write_raw pack_unsigned arrange le_bytes
projector-TileFits = record {
  fg_id = omega arith;
  bg_id = omega arith;
  parent_index = omega arith;
  flags = omega arith;
  legal_fg = refl;
  legal_bg = refl;
  lock_index = omega arith;
  extra = (
    record {
      item = record { id = 15376; flags2 = 0 };
      known = refl;
      typed = refl;
      body = (omega arith, omega arith);
      hull = refl;
      no_guild_item = refl;
    },
    refl,
  );
  json_data = record { bytes = 160 ∷ []; dumped = refl; loaded = refl; short = omega arith };
}

deserialize_tile-serialize_tile_example :
    (b : Bytes) × (serialize_tile raw_cbor 20 projector ≡ ok b)
    × ((deserialize_tile raw_cbor shelf 20 true (make b little)).0 ≡ ok projector)
deserialize_tile-serialize_tile_example =
    deserialize_tile-serialize_tile raw_cbor shelf 20 true projector projector-TileFits

abbrev world_lock : LockTile
world_lock = record {
  flags = 0;
  owner_uid = 12;
  access_count = 2;
  access_uids = pos 40 ∷ negsuc 119 ∷ [];
  minimum_level = 0;
  unk1 = 0;
  bpm = 120;
}

-- A lock at world version 9, with one uid and the tempo 120.
abbrev lock_bytes : Bytes
lock_bytes = 0 ∷ 12 ∷ 0 ∷ 0 ∷ 0 ∷ 2 ∷ 0 ∷ 0 ∷ 0 ∷ 40 ∷ 0 ∷ 0 ∷ 0 ∷ 136 ∷ 255 ∷ 255 ∷ 255 ∷ []

lock_read : (deserialize_lock_tile 9 (make lock_bytes little)).0 ≡ ok world_lock
unfolding deserialize_lock_tile read_many read_if read_fmt read_raw arrange le_value bpm_of of_word
lock_read = refl

set_bpm_unreadable_example :
    (y : LockTile) × (set_bpm 150 world_lock ≡ ok y)
    × ((t : Buffer) → (deserialize_lock_tile 9 t).0 ≢ ok y)
unfolding tempos
set_bpm_unreadable_example =
    set_bpm_unreadable 9 150 (make lock_bytes little) world_lock lock_read (omega arith)
      (λ e. absurd (omega (arith, e)))

registry-from_item_type_example :
    (r : Exec Buffer TileExtraBody) × (Dict.lookup 4 (registry 2 20) ≡ some r)
unfolding from_item_type iteminfo_to_tileextra Dict.lookup
registry-from_item_type_example = registry-from_item_type 2 20 19 4 refl
