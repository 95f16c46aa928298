-- ===== src/Packet/Calls.antt =====
-- A remote call arrives: from values to a variant packet, over the wire, and back to the values.
use gtools.Prelude.{
  ℕ, ◌<◌, ◌≡◌, ◌≢◌, refl, sym, subst, ◌∙◌, Bool, true, ==_refl, List, [], ◌∷◌, All, some, length,
  arith,
}
use gtools.Python.Exec.{ok_injective, ok, and_then}
use gtools.Python.Struct.{Bytes, Floats}
use gtools.Variant.Value.{Value}
use gtools.Variant.Wire
use gtools.Variant.Encoding.{IsWritable}
use gtools.Variant.RoundTrip.{serialize_lem, wire-ne-nil, deserialize-serialize}
use gtools.Packet.Types.{tank_packet}
use gtools.Packet.Numbers.{parse_tank_type-tank_code}
use gtools.Packet.Tank.{TankPacket, strict, has_extended, set_extended, init, accepts, header}
use gtools.Packet.TankRoundTrip.{Fits, IsWord}
use gtools.Packet.Net.{NetPacket, tank, get_tank, serialize, deserialize, variant}
use gtools.Packet.NetRoundTrip.{sends_tank, deserialize-serialize-received}

has_extended-set_extended : (f : ℕ) → has_extended (set_extended f) ≡ true
unfolding has_extended set_extended
has_extended-set_extended f = ground arith

set_extended-IsWord : (f : ℕ) → IsWord f → IsWord (set_extended f)
unfolding has_extended set_extended
set_extended-IsWord f h = ground arith

set_extended_again : (f : ℕ) → set_extended (set_extended f) ≡ set_extended f
unfolding set_extended
set_extended_again f = rw (has_extended-set_extended f)

module _ {F : Type 0} where
  -- The tank packet of a call.
  abbrev call : TankPacket F → Bytes → TankPacket F
  call t b = record t { flags = set_extended t.flags; extended_len = length b; extended_data = b }

  init-call :
      (t : TankPacket F) (b : Bytes)
      → b ≢ []
      → init (header (record t { flags = set_extended t.flags; extended_len = 0 })) (some b)
        ≡ ok (call t b)
  unfolding init
  init-call t [] h = absurd (h refl)
  init-call t (x ∷ b) h = rw (parse_tank_type-tank_code t.type, set_extended_again t.flags)

  call-accepts : (t : TankPacket F) (b : Bytes) → b ≢ [] → accepts strict (call t b) ≡ true
  unfolding accepts
  call-accepts t [] h = absurd (h refl)
  call-accepts t (x ∷ b) h = rw (==_refl (length (x ∷ b)), has_extended-set_extended t.flags)

module _ {F : Type 0} ⦃fl : Floats F⦄ where
  call-Fits : (t : TankPacket F) (b : Bytes) → Fits t → IsWord (length b) → Fits (call t b)
  call-Fits t b h few = record {
    object_type = h.object_type;
    jump_count = h.jump_count;
    animation_type = h.animation_type;
    net_id = h.net_id;
    target_net_id = h.target_net_id;
    flags = set_extended-IsWord t.flags h.flags;
    float_var = h.float_var;
    value = h.value;
    vector_x = h.vector_x;
    vector_y = h.vector_y;
    vector_x2 = h.vector_x2;
    vector_y2 = h.vector_y2;
    particle_rotation = h.particle_rotation;
    int_x = h.int_x;
    int_y = h.int_y;
    extended_len = few;
  }

  wire_ne_nil :
      (vs : List (Value F))
      → length vs < 256
      → All IsWritable vs
      → {b : Bytes} → Wire.serialize vs ≡ ok b
      → b ≢ []
  wire_ne_nil vs few h e n =
      absurd (wire-ne-nil vs few h (ok_injective (sym (serialize_lem vs few h) ∙ e) ∙ n))

  read_values :
      (vs : List (Value F))
      → length vs < 256
      → All IsWritable vs
      → {b : Bytes} → Wire.serialize vs ≡ ok b
      → Wire.deserialize b ≡ ok vs
  read_values vs few h e =
      let (b, written, read) = deserialize-serialize vs few h in
      subst (λ b. Wire.deserialize b ≡ ok vs) (ok_injective (sym written ∙ e)) read

  -- At most 255 values that their formats can hold, whose bytes are fewer than 2^32, are sent with
  -- any tank packet whose fields are in range, and strict mode reads the packet and the values back.
  pub get_tank-variant :
      (vs : List (Value F)) (t : TankPacket F) (b : Bytes) (compensate : Bool)
      → length vs < 256
      → All IsWritable vs
      → Wire.serialize vs ≡ ok b
      → IsWord (length b)
      → Fits t
      → (p : NetPacket F) × (sent : Bytes) × (variant vs t ≡ ok p)
        × (serialize compensate p ≡ ok sent)
        × (deserialize compensate sent strict ≡ ok p)
        × (and_then (get_tank p) (λ u. Wire.deserialize u.extended_data) ≡ ok vs)
  unfolding variant get_tank
  get_tank-variant vs t b compensate few h e short fit =
      let p : NetPacket F = record { type = tank_packet; message = tank (call t b) } in
      let (sent, written, read) = deserialize-serialize-received compensate strict p (
        sends_tank (call t b) (call-Fits t b fit short)
          (call-accepts t b (wire_ne_nil vs few h e))) in
      (
        p,
        sent,
        rw (e, init-call t b (wire_ne_nil vs few h e)),
        written,
        read,
        read_values vs few h e,
      )
