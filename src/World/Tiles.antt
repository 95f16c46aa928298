-- ===== src/World/Tiles.antt =====
-- Tiles are read back as they were written.
use gtools.Prelude.{
  ℕ, ◌-◌, ◌++◌, ◌<◌, ◌^◌, ◌≡◌, subst, Bool, true, false, Option, none, some, [], length,
  length-append, append_assoc, arith,
}
use gtools.Python.Exec.{Exec, Exception, ok, require, ok_injective, ◌>>◌}
use gtools.Python.Struct.{Bytes, little}
use gtools.Python.Struct.Laws.{unsigned-Packs}
use gtools.Buffer.Raw.{Buffer, make}
use gtools.Buffer.Values.{read_bytes}
use gtools.Buffer.RoundTrip.{read_raw-reading}
use gtools.Buffer.Strings.{read_pascal_bytes-reading, write_pascal_bytes-make}
use gtools.World.Extra.Loops.{IsU16, Kept, read_if, write_if}
use gtools.World.Extra.Carried.{Carries, finished, next, last, when, u16, taken_back}
use gtools.World.Extra.Codec.{DatabaseItem, TileExtra, serialize_extra}
use gtools.World.Extra.RoundTrip.{ExtraFits, extra-Carries}
use gtools.World.Tile.{
  ItemDatabase, Cbor, Tile, cbor_ids, is_in, has_extra_data, is_locked, is_legal, with_raw,
  read_extra, write_extra, read_json, write_json, deserialize_tile, serialize_tile_into,
  serialize_tile,
}

with_raw-Carries :
    {A : Type 0} {w : Exec Buffer Unit} {r : Exec Buffer A} {v : A} (p : Carries w r v)
    → Carries w (with_raw r) (v, p.bytes)
unfolding with_raw read_bytes
with_raw-Carries p = record {
  bytes = p.bytes;
  written = p.written;
  taken = λ c done rest. rw (
    p.taken c done rest,
    append_assoc done p.bytes rest,
    read_raw-reading little c (length (done ++ p.bytes) - length done) done p.bytes rest
        (omega (arith, length-append done p.bytes)),
    ← append_assoc done p.bytes rest,
  );
}

pub checked :
    {A : Type 0} {w : Exec Buffer Unit} {r : Exec Buffer A} {v : A} (c : Bool) (e : Exception)
    → c ≡ true
    → Carries w r v
    → Carries w (require c e >> r) v
checked c e h p = rw h p

-- The extra fits, and its raw bytes are those that it is serialized to.
abbrev pub PartFits :
    (ℕ → Option DatabaseItem) → ℕ → ℕ → ℕ → Bool → Option TileExtra → Bytes → Type 0
PartFits items fg bg version true (some x) raw =
    ExtraFits items fg bg version x × (serialize_extra fg version x ≡ ok raw)
PartFits items fg bg version true none raw = ⊥
PartFits items fg bg version false x raw = ◌≡◌ {A = Option TileExtra × Bytes} (x, raw) (none, [])

-- Where the tile has CBOR data, the library takes it back from the bytes that it makes of it.
pub record JsonFits {J : Type 0} (cbor : Cbor J) (j : J) : Type 0 where
  pub bytes : Bytes
  pub dumped : cbor.dumps j ≡ ok bytes
  pub loaded : cbor.loads bytes ≡ ok j
  pub short : length bytes < 256 ^ 4

module _ {J : Type 0} (cbor : Cbor J) (db : ItemDatabase) (version : ℕ) (strict : Bool) where
  pub record TileFits (x : Tile J) : Type 0 where
    pub fg_id : IsU16 x.fg_id
    pub bg_id : IsU16 x.bg_id
    pub parent_index : IsU16 x.parent_index
    pub flags : IsU16 x.flags
    pub legal_fg : is_legal cbor db strict x.fg_id ≡ true
    pub legal_bg : is_legal cbor db strict x.bg_id ≡ true
    pub lock_index : Kept (is_locked x.flags) (IsU16 x.lock_index) x.lock_index 0
    pub extra : PartFits db.get x.fg_id x.bg_id version (has_extra_data x.flags) x.extra x.extra_raw
    pub json_data : Kept (is_in x.fg_id cbor_ids) (JsonFits cbor x.json_data) x.json_data cbor.empty

  raw_bytes :
      (fg bg : ℕ) (x : TileExtra) (raw : Bytes) (h : ExtraFits db.get fg bg version x)
      → serialize_extra fg version x ≡ ok raw
      → (extra-Carries db.get fg bg version x h).bytes ≡ raw
  unfolding serialize_extra
  raw_bytes fg bg x raw h e =
      ok_injective (rw ((extra-Carries db.get fg bg version x h).written []) at e)

  part-Carries :
      (fg bg : ℕ) (c : Bool) (x : Option TileExtra) (raw : Bytes)
      → PartFits db.get fg bg version c x raw
      → Carries
          (write_if c (write_extra fg version x))
          (read_if c (read_extra db.get fg bg version) (none, []))
          (x, raw)
  unfolding write_if read_if write_extra read_extra
  part-Carries fg bg true (some x) raw h =
      subst
        (λ b.
          Carries (write_extra fg version (some x)) (read_extra db.get fg bg version) (some x, b))
        (raw_bytes fg bg x raw h.0 h.1)
        (last _ (with_raw-Carries (extra-Carries db.get fg bg version x h.0)))
  part-Carries fg bg true none raw h = absurd h
  part-Carries fg bg false x raw h = rw h finished

  json-Carries : {j : J} → JsonFits cbor j → Carries (write_json cbor j) (read_json cbor) j
  unfolding write_json read_json
  json-Carries {j} h =
      let p = unsigned-Packs 4 little (length h.bytes) h.short in
      record {
        bytes = p.bytes ++ h.bytes;
        written = λ done. rw h.dumped (write_pascal_bytes-make h.bytes p done);
        taken = λ c done rest. rw (
          append_assoc p.bytes h.bytes rest,
          read_pascal_bytes-reading h.bytes p c done rest,
          h.loaded,
        );
      }

  pub tile-Carries :
      (x : Tile J)
      → TileFits x
      → Carries (serialize_tile_into cbor version x) (deserialize_tile cbor db version strict) x
  unfolding serialize_tile_into deserialize_tile
  tile-Carries x h = next _ (u16 h.fg_id) (
      next _ (u16 h.bg_id) (
        checked _ _ h.legal_fg (
          checked _ _ h.legal_bg (
            next _ (u16 h.parent_index) (
              next _ (u16 h.flags) (
                next _ (when _ _ _ u16 h.lock_index) (
                  next _ (part-Carries x.fg_id x.bg_id _ x.extra x.extra_raw h.extra)
                    (last _ (when _ _ _ json-Carries h.json_data)))))))))

  -- A tile whose fields fit their formats, whose ids the database allows and whose extra and CBOR
  -- data can be read back, is serialized, and reading the bytes gives the tile back, its raw extra
  -- bytes included.
  pub deserialize_tile-serialize_tile :
      (x : Tile J)
      → TileFits x
      → (b : Bytes) × (serialize_tile cbor version x ≡ ok b)
        × ((deserialize_tile cbor db version strict (make b little)).0 ≡ ok x)
  unfolding serialize_tile
  deserialize_tile-serialize_tile x h = taken_back (tile-Carries x h)
