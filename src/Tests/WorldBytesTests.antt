-- ===== src/Tests/WorldBytesTests.antt =====
-- A world of one tile and one dropped item, and worlds whose tiles cannot be read; floats are their
-- bit patterns.
use gtools.Prelude.{
  true, ℕ, ◌+◌, ◌≡◌, ◌≢◌, refl, Bool, [], ◌∷◌, none, some, pos, ◌++◌, arith, replicate, leb,
}
use gtools.Python.Exec.{ok}
use gtools.Python.Struct.{Bytes, little}
use gtools.World.Dropped.{DroppedItem}
use gtools.World.Wire.{WorldData}
use gtools.World.Load.{deserialize_world}
use gtools.World.Loaded.{WorldFits}
use gtools.World.Ended.{deserialize_world_ends}
use gtools.Python.Struct.Words.{le_bytes}
use gtools.Buffer.Raw.{make}
use gtools.World.Wire.{write_rest}
use gtools.World.Recover.{recover}
use gtools.World.Backwards.{exchanged}
use gtools.World.Exchanged.{recover-write_rest}
use gtools.Tests.VariantTests.{patterns}
use gtools.Tests.TileTests.{shelf, raw_cbor, projector, projector-TileFits}

abbrev seed_bag : DroppedItem ℕ
seed_bag = record { id = 3; pos_x = 40; pos_y = 50; amount = 20; flags = 0; uid = 1 }

abbrev near : ℕ → ℕ → Bool
near size v = leb v (size + 100)

abbrev start_world : WorldData Bytes ℕ
start_world = record {
  id = 5;
  version = 20;
  f = 0;
  name = 83 ∷ 84 ∷ [];
  width = 1;
  height = 1;
  nb_tiles = 1;
  unk2 = replicate 5 0;
  tiles = projector ∷ [];
  unk4 = replicate 12 0;
  dropped = record { nb_items = pos 1; last_uid = 1; items = seed_bag ∷ [] };
  default_weather = 2;
  terraform = 0;
  active_weather = 2;
  unk8 = 0;
  unk9 = 0;
  garbage_start = none;
}

start_world-WorldFits : WorldFits raw_cbor shelf near start_world
start_world-WorldFits = record {
  version = omega arith;
  f = omega arith;
  name = omega arith;
  width = omega arith;
  height = omega arith;
  nb_tiles = omega arith;
  unk2 = refl;
  counted = refl;
  wide = refl;
  tiles = (projector-TileFits, tt);
  unk4 = refl;
  nb_items = refl;
  few = omega arith;
  last_uid = omega arith;
  items = (
    record {
      id = omega arith;
      pos_x = record { bits = 40; rounded = refl; fits = omega arith; exact = refl };
      pos_y = record { bits = 50; rounded = refl; fits = omega arith; exact = refl };
      amount = omega arith;
      flags = omega arith;
      uid = omega arith;
    },
    tt,
  );
  default_weather = omega arith;
  terraform = omega arith;
  active_weather = omega arith;
  unk8 = omega arith;
  unk9 = omega arith;
  whole = refl;
}

deserialize_world_ends_example :
    deserialize_world raw_cbor shelf near 5 (20 ∷ 0 ∷ replicate 40 1) ≢ ok none
deserialize_world_ends_example =
    deserialize_world_ends raw_cbor shelf near 5 (20 ∷ 0 ∷ replicate 40 1)

abbrev bare : WorldData Bytes ℕ
bare = record start_world { dropped = record { nb_items = pos 0; last_uid = 0; items = [] } }

recover-write_rest_example :
    (b : Bytes) × (write_rest start_world (make (9 ∷ []) little) ≡ (ok tt, make b little))
    × (recover (λ i. true) near 1 bare (make b little)
        ≡ some (record bare {
          unk4 = replicate 4 0 ++ le_bytes 4 1 ++ le_bytes 4 1;
          dropped = record { nb_items = pos 1; last_uid = 1; items = exchanged seed_bag ∷ [] };
        }))
recover-write_rest_example =
    recover-write_rest start_world seed_bag
      (record {
        unk4 = refl;
        nb_items = refl;
        last_uid = omega arith;
        items = refl;
        item = start_world-WorldFits.items.0;
        default_weather = omega arith;
        terraform = omega arith;
        active_weather = omega arith;
        unk8 = omega arith;
        unk9 = omega arith;
      })
      (λ i. true) near 0 bare (9 ∷ []) refl refl
