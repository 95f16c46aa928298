-- ===== src/World/Recover.antt =====
-- gtools/core/growtopia/world.py: the end of `World.deserialize` where a tile could not be read. The
-- bytes are read backwards from their end; an exception leaves what was read before it.
use gtools.Prelude.{
  ℕ, zero, suc, Bool, true, false, ◌==◌, not, ◌&&◌, ◌||◌, ltb, Option, none, some, [], ◌∷◌, ◌++◌, ℤ,
  pos, negsuc, ◌+ℤ◌, if◌then◌else◌, length,
}
use mathlib.Core.List.{reverse}
use gtools.Python.Exec.{Exec, Result, ok, err, pure, ◌>>=◌}
use gtools.Python.Struct.{Floats}
use gtools.Buffer.Raw.{Buffer}
use gtools.Buffer.Values.{read_u8, read_u16, read_u32, read_f32, read_bytes}
use gtools.World.Dropped.{DroppedItem}
use gtools.World.Wire.{WorldData}

-- Where the loop over the items has come to: a `break`, an exception, or neither yet.
pub data LoopState (W : Type 0) : Type 0 where
  stopped : W → Buffer → LoopState W
  raised : W → LoopState W
  running : LoopState W

abbrev pub is_count : ℕ → ℤ → Bool
is_count n (pos m) = n == m
is_count n (negsuc m) = false

-- `vec2(s.read_f32(), s.read_f32())` takes what is read first for x.
unfoldable pub read_item_back : {F : Type 0} ⦃fl : Floats F⦄ → Exec Buffer (DroppedItem F)
read_item_back = do
  uid ← read_u32
  flags ← read_u8
  amount ← read_u8
  pos_x ← read_f32
  pos_y ← read_f32
  id ← read_u16
  pure (record { id = id; pos_x = pos_x; pos_y = pos_y; amount = amount; flags = flags; uid = uid })

unfoldable pub read_counts : Exec Buffer (ℕ × ℕ)
read_counts = do last_uid ← read_u32; nb_items ← read_u32; pure (last_uid, nb_items)

-- The ids of the database, and the test `-32 < v < size * 32 + 32` of a coordinate.
module _ {J F : Type 0} ⦃fl : Floats F⦄ (known : ℕ → Bool) (within : ℕ → F → Bool) where
  abbrev pub plausible : WorldData J F → DroppedItem F → Bool
  plausible w x =
      known x.id && not (ltb 200 x.amount) && within w.width x.pos_x && within w.height x.pos_y

  abbrev pub with_item : DroppedItem F → WorldData J F → WorldData J F
  with_item x w = record w {
    dropped = record w.dropped {
      items = w.dropped.items ++ x ∷ [];
      nb_items = w.dropped.nb_items +ℤ pos 1;
    };
  }

  -- Behind `with s.temp()`, which puts the cursor back.
  abbrev pub after_counts :
      (WorldData J F → Buffer → LoopState (WorldData J F))
      → WorldData J F
      → DroppedItem F
      → Buffer
      → Result (ℕ × ℕ) × Buffer
      → LoopState (WorldData J F)
  after_counts again w x s (err e, t) = raised w
  after_counts again w x s (ok (last_uid, nb_items), t) =
      if is_count nb_items w.dropped.nb_items || x.uid == 1
      then stopped (record w { dropped = record w.dropped { last_uid = last_uid } })
          (record t { rpos = s.rpos })
      else again w (record t { rpos = s.rpos })

  abbrev pub after_item :
      (WorldData J F → Buffer → LoopState (WorldData J F))
      → WorldData J F
      → Result (DroppedItem F) × Buffer
      → LoopState (WorldData J F)
  after_item again w (err e, s) = raised w
  after_item again w (ok x, s) =
      if plausible w x then after_counts again (with_item x w) x s (read_counts s) else stopped w s

  -- `while True`
  unfoldable pub items_loop : ℕ → WorldData J F → Buffer → LoopState (WorldData J F)
  items_loop zero w s = running
  items_loop (suc n) w s = after_item (items_loop n) w (read_item_back s)

  abbrev pub attempt :
      {A : Type 0}
      → Result A × Buffer
      → WorldData J F
      → (A → Buffer → Option (WorldData J F))
      → Option (WorldData J F)
  attempt (ok a, s) w k = k a s
  attempt (err e, s) w k = some w

  abbrev pub turned : WorldData J F → WorldData J F
  turned w = record w { dropped = record w.dropped { items = reverse w.dropped.items } }

  abbrev pub after_items : LoopState (WorldData J F) → Option (WorldData J F)
  after_items (stopped w s) =
      attempt (read_bytes (some 12) s) w (λ unk4 s. some (turned (record w { unk4 = unk4 })))
  after_items (raised w) = some w
  after_items running = none

  -- `with s.reversed(keep=False)`; `none` means that the loop is still running.
  unfoldable pub recover : ℕ → WorldData J F → Buffer → Option (WorldData J F)
  recover fuel w s =
      attempt (read_u32 (record s { rpos = length s.buffer; reverse_read = true })) w (λ unk9 s.
        let w = record w { unk9 = unk9 } in
        attempt (read_u16 s) w (λ unk8 s.
          let w = record w { unk8 = unk8 } in
          attempt (read_u16 s) w (λ active_weather s.
            let w = record w { active_weather = active_weather } in
            attempt (read_u16 s) w (λ terraform s.
              let w = record w { terraform = terraform } in
              attempt (read_u16 s) w (λ default_weather s.
                after_items
                  (items_loop fuel (record w { default_weather = default_weather }) s))))))
