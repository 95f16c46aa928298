-- ===== src/World/Load.antt =====
-- gtools/core/growtopia/world.py: `World.deserialize`.
use gtools.Prelude.{
  ℕ, zero, suc, ◌==◌, not, Bool, true, false, Option, none, some, List, [], ◌∷◌, length, replicate,
  pos,
}
use gtools.Python.Exec.{
  Exec, Result, ok, err, zero_division_error, unbound_local_error, pure, lift, require, ◌>>=◌, ◌>>◌,
}
use gtools.Python.Struct.{Bytes, little, Floats}
use gtools.Buffer.Raw.{Buffer, make}
use gtools.Buffer.Values.{read_u16, read_u32, read_bytes}
use gtools.World.Extra.Loops.{read_text, read_many}
use gtools.World.Tile.{ItemDatabase, Cbor, Tile, deserialize_tile}
use gtools.World.Wire.{WorldData, read_dropped}
use gtools.World.Recover.{recover}

-- `try` with `except Exception`: what was read stays read.
abbrev pub option_of : {A : Type 0} → Result A × Buffer → Result (Option A) × Buffer
option_of (ok a, t) = (ok (some a), t)
option_of (err e, t) = (ok none, t)

unfoldable pub tried : {A : Type 0} → Exec Buffer A → Exec Buffer (Option A)
tried m s = option_of (m s)

-- A tile that fails leaves the variable at the tile before, or unbound.
abbrev pub tile_or_last : {A : Type 0} → Option A → Option A → Result A
tile_or_last (some t) last = ok t
tile_or_last none (some t) = ok t
tile_or_last none none = err unbound_local_error

abbrev pub first_failed : {A : Type 0} → Option A → ℕ → Option ℕ → Option ℕ
first_failed (some t) p garbage = garbage
first_failed none p (some q) = some q
first_failed none p none = some p

abbrev is_known : {A : Type 0} → Option A → Bool
is_known none = false
is_known (some i) = true

module _ {J : Type 0} (cbor : Cbor J) (db : ItemDatabase) where
  unfoldable pub read_tiles :
      ℕ → ℕ → ℕ → ℕ → Option (Tile J) → Option ℕ → Exec Buffer (List (Tile J) × Option ℕ)
  read_tiles version width zero p last garbage = pure ([], garbage)
  read_tiles version width (suc n) p last garbage = do
    t ← tried (deserialize_tile cbor db version true)
    tile ← lift (tile_or_last t last)
    require (not (width == 0)) zero_division_error
    rest ← read_tiles version width n (suc p) (some tile) (first_failed t p garbage)
    pure (tile ∷ rest.0, rest.1)

  module _ {F : Type 0} ⦃fl : Floats F⦄ (within : ℕ → F → Bool) where
    unfoldable pub read_rest : WorldData J F → Exec Buffer (WorldData J F)
    read_rest w = do
      unk4 ← read_bytes (some 12)
      nb_items ← read_u32
      last_uid ← read_u32
      items ← read_many nb_items read_dropped
      default_weather ← read_u16
      terraform ← read_u16
      active_weather ← read_u16
      unk8 ← read_u16
      unk9 ← read_u32
      pure (record w {
        unk4 = unk4;
        dropped = record { nb_items = pos nb_items; last_uid = last_uid; items = items };
        default_weather = default_weather;
        terraform = terraform;
        active_weather = active_weather;
        unk8 = unk8;
        unk9 = unk9;
      })

    -- The loop of `recover` reads at least one byte a round.
    unfoldable pub finish_world : Option ℕ → WorldData J F → Exec Buffer (Option (WorldData J F))
    finish_world none w = do v ← read_rest w; pure (some v)
    finish_world (some p) w =
        λ s. (ok (recover (λ i. is_known (db.get i)) within (suc (length s.buffer)) w s), s)

    unfoldable pub deserialize_world_from : ℕ → Exec Buffer (Option (WorldData J F))
    deserialize_world_from id = do
      version ← read_u16
      f ← read_u32
      name ← read_text
      width ← read_u32
      height ← read_u32
      nb_tiles ← read_u32
      unk2 ← read_bytes (some 5)
      tiles ← read_tiles version width nb_tiles 0 none none
      finish_world tiles.1 (record {
        id = id;
        version = version;
        f = f;
        name = name;
        width = width;
        height = height;
        nb_tiles = nb_tiles;
        unk2 = unk2;
        tiles = tiles.0;
        unk4 = replicate 12 0;
        dropped = record { nb_items = pos 0; last_uid = 0; items = [] };
        default_weather = 0;
        terraform = 0;
        active_weather = 0;
        unk8 = 0;
        unk9 = 0;
        garbage_start = tiles.1;
      })

    unfoldable pub deserialize_world : ℕ → Bytes → Result (Option (WorldData J F))
    deserialize_world id b = (deserialize_world_from id (make b little)).0
