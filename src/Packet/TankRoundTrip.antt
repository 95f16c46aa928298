-- ===== src/Packet/TankRoundTrip.antt =====
-- A tank packet is read back from its bytes; strict mode refuses the inconsistent ones.
use gtools.Prelude.{
  ◌||◌, length, ℕ, ◌^◌, ◌<◌, ◌/◌, ◌++◌, ◌==◌, Bool, true, false, ◌&&◌, [], none, if◌then◌else◌,
  take-append_length, drop-append_length, ◌≡◌, refl, sym, ap, ℤ,
}
use gtools.Python.Exec.{ok, err, value_error, map_ok}
use gtools.Python.Struct.{Bytes, little, Floats, in_signed_range}
use gtools.Python.Struct.Laws.{Packs, unsigned-Packs, signed-Packs, floating-Packs, IsExact}
use gtools.Python.Struct.Fields.{both-Packs, unpack_from-Packs}
use gtools.Packet.Numbers.{parse_tank_type-tank_code, tank_code-lt}
use gtools.Packet.Tank.{
  strict, has_extended, is_empty, TankPacket, Mode, relaxed, header, tank_format, init, accepts,
  serialize, deserialize,
}

abbrev pub IsWord : ℕ → Type 0
IsWord v = v < 256 ^ 4

abbrev pub IsInt : ℤ → Type 0
IsInt v = in_signed_range (256 ^ 4 / 2) v ≡ true

and_false : (b : Bool) → b && false ≡ false
and_false true = refl
and_false false = refl

module _ {F : Type 0} ⦃fl : Floats F⦄ where
  -- The fields are in the ranges of their formats.
  pub record Fits (t : TankPacket F) : Type 0 where
    pub object_type : t.object_type < 256
    pub jump_count : t.jump_count < 256
    pub animation_type : t.animation_type < 256
    pub net_id : IsInt t.net_id
    pub target_net_id : IsInt t.target_net_id
    pub flags : IsWord t.flags
    pub float_var : IsExact 4 t.float_var
    pub value : IsWord t.value
    pub vector_x : IsExact 4 t.vector_x
    pub vector_y : IsExact 4 t.vector_y
    pub vector_x2 : IsExact 4 t.vector_x2
    pub vector_y2 : IsExact 4 t.vector_y2
    pub particle_rotation : IsExact 4 t.particle_rotation
    pub int_x : IsInt t.int_x
    pub int_y : IsInt t.int_y
    pub extended_len : IsWord t.extended_len

  pub header-Packs : (t : TankPacket F) → Fits t → Packs (tank_format {F = F}) little (header t)
  header-Packs t h = both-Packs (unsigned-Packs 1 little _ (tank_code-lt t.type)) (
      both-Packs (unsigned-Packs 1 little _ h.object_type) (
        both-Packs (unsigned-Packs 1 little _ h.jump_count) (
          both-Packs (unsigned-Packs 1 little _ h.animation_type) (
            both-Packs (signed-Packs 4 little _ h.net_id) (
              both-Packs (signed-Packs 4 little _ h.target_net_id) (
                both-Packs (unsigned-Packs 4 little _ h.flags) (
                  both-Packs (floating-Packs 4 little _ h.float_var) (
                    both-Packs (unsigned-Packs 4 little _ h.value) (
                      both-Packs (floating-Packs 4 little _ h.vector_x) (
                        both-Packs (floating-Packs 4 little _ h.vector_y) (
                          both-Packs (floating-Packs 4 little _ h.vector_x2) (
                            both-Packs (floating-Packs 4 little _ h.vector_y2) (
                              both-Packs (floating-Packs 4 little _ h.particle_rotation) (
                                both-Packs (signed-Packs 4 little _ h.int_x) (
                                  both-Packs (signed-Packs 4 little _ h.int_y)
                                    (unsigned-Packs 4 little _ h.extended_len))))))))))))))))

  abbrev pub tank_bytes : (t : TankPacket F) → Fits t → Bytes
  tank_bytes t h = (header-Packs t h).bytes ++ t.extended_data

  pub serialize-tank_bytes :
      (t : TankPacket F) (h : Fits t) → serialize relaxed t ≡ ok (tank_bytes t h)
  unfolding serialize
  serialize-tank_bytes t h = ap (map_ok (λ b. b ++ t.extended_data)) (header-Packs t h).packed

  -- Without data, the constructor keeps the length that it is given.
  init-header : (t : TankPacket F) → init (header t) none ≡ ok (record t { extended_data = [] })
  unfolding init
  init-header t = rw (parse_tank_type-tank_code t.type, and_false (t.extended_len == 0))

  pub deserialize-tank_bytes :
      (t : TankPacket F) (h : Fits t) (m : Mode)
      → deserialize (tank_bytes t h) m ≡ (if accepts m t then ok t else err value_error)
  unfolding deserialize
  deserialize-tank_bytes t h m = rw (
    take-append_length (header-Packs t h).bytes t.extended_data 56 (sym (header-Packs t h).sized),
    drop-append_length (header-Packs t h).bytes t.extended_data 56 (sym (header-Packs t h).sized),
    unpack_from-Packs (header-Packs t h),
    init-header t,
  )

  -- A packet whose fields are in range is written, in relaxed mode, and read back as the packet; in
  -- strict mode only where the length is that of the data, and data comes with the flag.
  pub deserialize-serialize_modes :
      (t : TankPacket F)
      → Fits t
      → (b : Bytes) × (serialize relaxed t ≡ ok b)
        × (deserialize b relaxed ≡ ok t)
        × (deserialize b strict ≡ (
            if (t.extended_len == length t.extended_data)
              && (is_empty t.extended_data || has_extended t.flags)
            then ok t
            else err value_error))
  unfolding accepts
  deserialize-serialize_modes t h = (
    tank_bytes t h,
    serialize-tank_bytes t h,
    deserialize-tank_bytes t h relaxed,
    deserialize-tank_bytes t h strict,
  )
