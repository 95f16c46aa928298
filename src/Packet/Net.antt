-- ===== src/Packet/Net.antt =====
-- `NetPacket`: the type word, then the message of that type.
use gtools.Prelude.{◌-◌, ◌++◌, List, [], ◌∷◌, Bool, if◌then◌else◌, slice, length, take, drop, some}
use gtools.Python.Exec.{Result, ok, err, type_error, and_then, map_ok}
use gtools.Python.Struct.{Bytes, little, unsigned, Floats, unpack_from}
use gtools.StrKv.Table.{StrKv}
use gtools.StrKv.Table
use gtools.Packet.Types.{
  NetType, unknown, server_hello, generic_text, game_message, tank_packet, error, track,
  client_log_request, client_log_response, sync_client_position, write_to_ring_buffer, net_code,
  parse_net_type,
}
use gtools.Packet.Tank
use gtools.Packet.Tank.{TankPacket, Mode, header, relaxed, set_extended}
use gtools.Variant.Value.{Value}
use gtools.Variant.Wire

-- `EmptyPacket`, `TankPacket`, `StrKV` or `UnknownPacket`
pub data Message (F : Type 0) : Type 0 where
  empty : Message F
  tank : TankPacket F → Message F
  text : StrKv → Message F
  raw : Bytes → Message F

pub record NetPacket (F : Type 0) : Type 0 where
  pub type : NetType
  pub message : Message F

-- The byte that anomaly_byte_compensation adds behind a message.
abbrev pub anomaly : Bool → Bytes
anomaly compensate = if compensate then 0 ∷ [] else []

-- `data[4:-1]` or `data[4:]`
abbrev pub body : Bool → Bytes → Bytes
body compensate b = if compensate then slice b 4 (length b - 1) else drop 4 b

module _ {F : Type 0} where
  abbrev tank_of : NetType → Message F → Result (TankPacket F)
  tank_of tank_packet (tank t) = ok t
  tank_of other m = err type_error

  -- The property `tank`.
  unfoldable pub get_tank : NetPacket F → Result (TankPacket F)
  get_tank p = tank_of p.type p.message

module _ {F : Type 0} ⦃fl : Floats F⦄ where
  unfoldable pub write_message : Message F → Result Bytes
  write_message empty = ok []
  write_message (tank t) = Tank.serialize relaxed t
  write_message (text s) = ok (Table.serialize s)
  write_message (raw b) = ok b

  unfoldable pub serialize : Bool → NetPacket F → Result Bytes
  serialize compensate p =
      and_then ((unsigned 4).pack little (net_code p.type))
        (λ type. map_ok (λ b. type ++ b ++ anomaly compensate) (write_message p.message))

  unfoldable pub read_message : NetType → Mode → Bytes → Result (Message F)
  read_message unknown m b = err type_error
  read_message server_hello m b = ok empty
  read_message tank_packet m b = map_ok tank (Tank.deserialize b m)
  read_message game_message m b = ok (text (Table.deserialize b))
  read_message generic_text m b = ok (text (Table.deserialize b))
  read_message track m b = ok (text (Table.deserialize b))
  read_message error m b = ok empty
  read_message client_log_request m b = ok empty
  read_message client_log_response m b = ok empty
  read_message sync_client_position m b = ok (raw b)
  read_message write_to_ring_buffer m b = ok (raw b)

  unfoldable pub deserialize : Bool → Bytes → Mode → Result (NetPacket F)
  unfolding unpack_from parse_net_type read_message
  deserialize compensate b m = and_then (unpack_from (unsigned 4) little (take 4 b)) (λ n.
      and_then (parse_net_type n) (λ t.
        map_ok (λ x. record { type = t; message = x }) (read_message t m (body compensate b))))

  -- `NetPacket.variant`: the header fields are those of the packet, with the flag and no length.
  unfoldable pub variant : List (Value F) → TankPacket F → Result (NetPacket F)
  variant values t = and_then (Wire.serialize values) (λ b.
      map_ok (λ x. record { type = tank_packet; message = tank x })
        (Tank.init (header (record t { flags = set_extended t.flags; extended_len = 0 })) (some b)))
