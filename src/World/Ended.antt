-- ===== src/World/Ended.antt =====
-- `World.deserialize` ends: it returns a world or raises.
use gtools.Prelude.{ℕ, ◌≡◌, ◌≢◌, sym, ◌∙◌, Bool, Option, none, some}
use gtools.Python.Exec.{Exec, Result, ok, err, pure, continue, ok_injective, ◌>>=◌}
use gtools.Python.Struct.{Bytes, little, Floats}
use gtools.Buffer.Raw.{Buffer, make}
use gtools.World.Tile.{ItemDatabase, Cbor}
use gtools.World.Wire.{WorldData}
use gtools.World.Recovered.{recover_ends}
use gtools.Buffer.Values.{read_u16, read_u32, read_bytes}
use gtools.World.Extra.Loops.{read_text}
use gtools.World.Load.{read_tiles, finish_world, deserialize_world_from, deserialize_world}

-- Where m succeeds, its value is there.
record Yields {W : Type 0} (m : Exec Buffer (Option W)) : Type 0 where
  yields : (s : Buffer) → (m s).0 ≢ ok none

next-Yields :
    {A W : Type 0} (m : Exec Buffer A) (k : A → Exec Buffer (Option W))
    → ((x : A) → Yields (k x))
    → Yields (m >>= k)
next-Yields {A} m k q = record { yields = λ s. go (m s) }
  where
    go : (y : Result A × Buffer) → (continue y k).0 ≢ ok none
    go (ok a, t) e = (q a).yields t e
    go (err x, t) e = cc e

module _ {J : Type 0} (cbor : Cbor J) (db : ItemDatabase) {F : Type 0} ⦃fl : Floats F⦄
    (within : ℕ → F → Bool) where
  some-Yields : (v : WorldData J F) → Yields (pure (some v))
  some-Yields v = record { yields = λ s e. cc e }

  finish_world-Yields :
      (g : Option ℕ) (w : WorldData J F) → Yields (finish_world cbor db within g w)
  unfolding finish_world
  finish_world-Yields none w = next-Yields _ _ some-Yields
  finish_world-Yields (some p) w = record {
    yields = λ s e. recovered s (recover_ends J _ within w s) e;
  }
    where
      recovered :
          {o : Option (WorldData J F)}
          → (s : Buffer) → (v : WorldData J F) × (o ≡ some v)
          → ◌≢◌ {A = Result (Option (WorldData J F))} (ok o) (ok none)
      recovered s (v, h) e = cc (sym h ∙ ok_injective e)

  world-Yields : (id : ℕ) → Yields (deserialize_world_from cbor db within id)
  unfolding deserialize_world_from
  world-Yields id = next-Yields read_u16 _ (λ version. next-Yields read_u32 _ (λ f.
      next-Yields read_text _ (λ name. next-Yields read_u32 _ (λ width.
        next-Yields read_u32 _ (λ height. next-Yields read_u32 _ (λ nb_tiles.
          next-Yields (read_bytes (some 5)) _ (λ unk2.
            next-Yields (read_tiles cbor db version width nb_tiles 0 none none) _
              (λ tiles. finish_world-Yields tiles.1 _))))))))

  -- Whatever the bytes are, the reading of a world ends: it raises or returns a world, also where
  -- tiles cannot be read and the loop over the dropped items runs.
  pub deserialize_world_ends :
      (id : ℕ) (b : Bytes) → deserialize_world cbor db within id b ≢ ok none
  unfolding deserialize_world
  deserialize_world_ends id b = (world-Yields id).yields (make b little)
