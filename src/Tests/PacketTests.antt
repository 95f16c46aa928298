-- ===== src/Tests/PacketTests.antt =====
-- Packets, with floats that are their own bit patterns.
use gtools.Prelude.{ℕ, [], ◌∷◌, ◌≡◌, refl, arith, pos, negsuc, true, replicate, ◌<◌, ◌^◌}
use gtools.Python.Exec.{ok, err, value_error, struct_error, type_error, and_then}
use gtools.Python.Struct.{Bytes, pack_unsigned, pack_signed, pack_bits, arrange, unpack_from}
use gtools.Python.Struct.Words.{le_bytes, le_value, to_word}
use gtools.Python.Struct.Laws.{IsExact}
use gtools.Python.Enums.{by_value}
use gtools.Variant.Wire
use gtools.Packet.Types.{tile_change_request, tank_packet, parse_net_type}
use gtools.Packet.Tank.{TankPacket, strict, relaxed, serialize, deserialize, accepts, has_extended}
use gtools.Packet.TankRoundTrip.{Fits, deserialize-serialize_modes}
use gtools.Packet.Net.{NetPacket, tank, text}
use gtools.Packet.Net
use gtools.Packet.NetRoundTrip.{deserialize-serialize-received, sends_tank}
use gtools.Packet.Calls.{get_tank-variant}
use gtools.Tests.VariantTests.{patterns, greeting, greeting_bytes, greeting_written}

abbrev tile_change : TankPacket ℕ
tile_change = record {
  type = tile_change_request;
  object_type = 0;
  jump_count = 1;
  animation_type = 2;
  net_id = negsuc 0;
  target_net_id = pos 7;
  flags = 3104;
  float_var = 0;
  value = 18;
  vector_x = 1065353216;
  vector_y = 0;
  vector_x2 = 0;
  vector_y2 = 0;
  particle_rotation = 0;
  int_x = pos 42;
  int_y = negsuc 1;
  extended_len = 2;
  extended_data = 5 ∷ 6 ∷ [];
}

exact : (v : ℕ) → v < 256 ^ 4 → IsExact {F = ℕ} 4 v
exact v h = record { bits = v; rounded = refl; fits = h; exact = refl }

tile_change-Fits : Fits tile_change
tile_change-Fits = record {
  object_type = omega arith;
  jump_count = omega arith;
  animation_type = omega arith;
  net_id = refl;
  target_net_id = refl;
  flags = omega arith;
  float_var = exact 0 (omega arith);
  value = omega arith;
  vector_x = exact 1065353216 (omega arith);
  vector_y = exact 0 (omega arith);
  vector_x2 = exact 0 (omega arith);
  vector_y2 = exact 0 (omega arith);
  particle_rotation = exact 0 (omega arith);
  int_x = refl;
  int_y = refl;
  extended_len = omega arith;
}

abbrev tile_change_bytes : Bytes
tile_change_bytes =
    3 ∷ 0 ∷ 1 ∷ 2 ∷ 255 ∷ 255 ∷ 255 ∷ 255 ∷ 7 ∷ 0 ∷ 0 ∷ 0 ∷ 32 ∷ 12 ∷ 0 ∷ 0 ∷ 0 ∷ 0 ∷ 0 ∷ 0 ∷ 18 ∷ 0
    ∷ 0 ∷ 0 ∷ 0 ∷ 0 ∷ 128 ∷ 63 ∷ 0 ∷ 0 ∷ 0 ∷ 0 ∷ 0 ∷ 0 ∷ 0 ∷ 0 ∷ 0 ∷ 0 ∷ 0 ∷ 0 ∷ 0 ∷ 0 ∷ 0 ∷ 0 ∷ 42
    ∷ 0 ∷ 0 ∷ 0 ∷ 254 ∷ 255 ∷ 255 ∷ 255 ∷ 2 ∷ 0 ∷ 0 ∷ 0 ∷ 5 ∷ 6 ∷ []

tile_change_written : serialize relaxed tile_change ≡ ok tile_change_bytes
unfolding serialize pack_unsigned pack_signed pack_bits arrange le_bytes to_word
tile_change_written = refl

-- Bit 3 of the flags is not set.
tile_change_refused : serialize strict tile_change ≡ err value_error
unfolding serialize has_extended
tile_change_refused = refl

header_cut : deserialize {F = ℕ} (replicate 55 0) relaxed ≡ err struct_error
unfolding deserialize unpack_from
header_cut = refl

type_unknown : Net.deserialize {F = ℕ} true (0 ∷ 0 ∷ 0 ∷ 0 ∷ 1 ∷ []) strict ≡ err type_error
unfolding Net.deserialize Net.read_message unpack_from arrange le_value parse_net_type by_value
type_unknown = refl

deserialize-serialize_modes_example :
    (b : Bytes) × (serialize relaxed tile_change ≡ ok b)
    × (deserialize b relaxed ≡ ok tile_change)
    × (deserialize {F = ℕ} b strict ≡ err value_error)
unfolding has_extended
deserialize-serialize_modes_example = deserialize-serialize_modes tile_change tile_change-Fits

abbrev tile_packet : NetPacket ℕ
tile_packet = record { type = tank_packet; message = tank tile_change }

deserialize-serialize-received_example :
    (b : Bytes) × (Net.serialize true tile_packet ≡ ok b)
    × (Net.deserialize true b relaxed ≡ ok tile_packet)
deserialize-serialize-received_example =
    deserialize-serialize-received true relaxed tile_packet
      (sends_tank tile_change tile_change-Fits (unfold accepts in refl))

get_tank-variant_example :
    (p : NetPacket ℕ) × (sent : Bytes) × (Net.variant greeting tile_change ≡ ok p)
    × (Net.serialize true p ≡ ok sent)
    × (Net.deserialize true sent strict ≡ ok p)
    × (and_then (Net.get_tank p) (λ u. Wire.deserialize u.extended_data) ≡ ok greeting)
get_tank-variant_example =
    get_tank-variant greeting tile_change greeting_bytes true (omega arith)
      (omega arith, (refl, tt)) greeting_written (omega arith) tile_change-Fits
