-- ===== src/Packet/Tank.antt =====
-- `TankPacket`: the fixed header of 56 bytes and the extended data behind it.
use gtools.Prelude.{
  ℕ, ◌+◌, ◌/◌, ◌%◌, ◌++◌, [], ◌∷◌, Bool, true, false, not, ◌&&◌, ◌||◌, ◌==◌, if◌then◌else◌, Option,
  none, some, length, take, drop, ℤ,
}
use gtools.Python.Exec.{Result, ok, err, value_error, and_then, map_ok}
use gtools.Python.Struct.{Bytes, little, Format, unsigned, signed, Floats, floating, unpack_from}
use gtools.Python.Struct.Fields.{◌⊗◌, ◌&◌}
use gtools.Packet.Types.{TankType, tank_code, parse_tank_type}

pub record TankPacket (F : Type 0) : Type 0 where
  pub type : TankType
  pub object_type : ℕ
  pub jump_count : ℕ
  pub animation_type : ℕ
  pub net_id : ℤ
  pub target_net_id : ℤ
  pub flags : ℕ
  pub float_var : F
  pub value : ℕ
  pub vector_x : F
  pub vector_y : F
  pub vector_x2 : F
  pub vector_y2 : F
  pub particle_rotation : F
  pub int_x : ℤ
  pub int_y : ℤ
  pub extended_len : ℕ
  pub extended_data : Bytes

pub data Mode : Type 0 where
  relaxed strict : Mode

-- The values that the header packs, in its order.
abbrev pub Header : Type 0 → Type 0
Header F =
    ℕ
    × (ℕ × (ℕ × (ℕ × (ℤ × (ℤ × (ℕ × (F × (ℕ × (F × (F × (F × (F × (F × (ℤ × (ℤ × (ℕ))))))))))))))))

-- `TankFlags.EXTENDED` is bit 3.
abbrev pub extended : ℕ
extended = 8

unfoldable pub has_extended : ℕ → Bool
has_extended flags = not (flags / extended % 2 == 0)

-- `flags |= TankFlags.EXTENDED`
unfoldable pub set_extended : ℕ → ℕ
set_extended flags = if has_extended flags then flags else flags + extended

abbrev pub is_empty : Bytes → Bool
is_empty [] = true
is_empty (b ∷ bs) = false

abbrev pub bytes_of : Option Bytes → Bytes
bytes_of none = []
bytes_of (some b) = b

module _ {F : Type 0} where
  abbrev pub header : TankPacket F → Header F
  header t =
      tank_code t.type
      & t.object_type
      & t.jump_count
      & t.animation_type
      & t.net_id
      & t.target_net_id
      & t.flags
      & t.float_var
      & t.value
      & t.vector_x
      & t.vector_y
      & t.vector_x2
      & t.vector_y2
      & t.particle_rotation
      & t.int_x
      & t.int_y
      & t.extended_len

  -- The fields that `__init__` stores before it looks at the extended data.
  abbrev pub with_header : Header F → TankType → Bytes → TankPacket F
  with_header (k, (o, (j, (a, (n, (m, (g, (f, (v, (x, (y, (x2, (y2, (r, (ix, (iy, l))))))))))))))))
        t b =
      record {
        type = t;
        object_type = o;
        jump_count = j;
        animation_type = a;
        net_id = n;
        target_net_id = m;
        flags = g;
        float_var = f;
        value = v;
        vector_x = x;
        vector_y = y;
        vector_x2 = x2;
        vector_y2 = y2;
        particle_rotation = r;
        int_x = ix;
        int_y = iy;
        extended_len = l;
        extended_data = b;
      }

  -- Data without a length sets the flag and the length.
  abbrev pub settle : TankPacket F → TankPacket F
  settle t =
      if (t.extended_len == 0) && not (is_empty t.extended_data)
      then record t { flags = set_extended t.flags; extended_len = length t.extended_data }
      else t

  -- `TankPacket(...)` with the type as a number; `none` is `extended_data=None`.
  unfoldable pub init : Header F → Option Bytes → Result (TankPacket F)
  unfolding parse_tank_type set_extended
  init h b = map_ok (λ t. settle (with_header h t (bytes_of b))) (parse_tank_type h.0)

  unfoldable pub set_extended_data : Bytes → TankPacket F → TankPacket F
  set_extended_data b t = record t { extended_data = b; extended_len = length b }

  -- In strict mode the length and the flag have to fit the data; relaxed mode logs a warning.
  unfoldable pub accepts : Mode → TankPacket F → Bool
  accepts relaxed t = true
  accepts strict t =
      (t.extended_len == length t.extended_data)
      && (is_empty t.extended_data || has_extended t.flags)

  module _ ⦃fl : Floats F⦄ where
    abbrev pub f32 : Format F
    f32 = floating 4

    -- "<BBBBiiIfIfffffiiI"
    abbrev pub tank_format : Format (Header F)
    tank_format =
        unsigned 1
        ⊗ unsigned 1
        ⊗ unsigned 1
        ⊗ unsigned 1
        ⊗ signed 4
        ⊗ signed 4
        ⊗ unsigned 4
        ⊗ f32
        ⊗ unsigned 4
        ⊗ f32
        ⊗ f32
        ⊗ f32
        ⊗ f32
        ⊗ f32
        ⊗ signed 4
        ⊗ signed 4
        ⊗ unsigned 4

    abbrev pub pack : TankPacket F → Result Bytes
    pack t = map_ok (λ b. b ++ t.extended_data) (tank_format.pack little (header t))

    unfoldable pub serialize : Mode → TankPacket F → Result Bytes
    serialize relaxed t = pack t
    serialize strict t =
        if not (is_empty t.extended_data) && not (has_extended t.flags)
        then err value_error
        else pack t

    abbrev check : Mode → TankPacket F → Result (TankPacket F)
    check m t = if accepts m t then ok t else err value_error

    unfoldable pub deserialize : Bytes → Mode → Result (TankPacket F)
    unfolding unpack_from init accepts
    deserialize b m = and_then (unpack_from tank_format little (take tank_format.size b)) (λ h.
        and_then (init h none)
          (λ t. check m (record t { extended_data = drop tank_format.size b })))
