-- ===== src/Packet/NetRoundTrip.antt =====
-- A packet is read back from its bytes, with and without the compensation for the anomaly byte.
use gtools.Prelude.{
  ◌-◌, ◌++◌, Bool, true, false, [], ◌∷◌, slice_middle, length, length-append, take-append_length,
  drop-append_length, append_assoc, append-nil, ◌≡◌, refl, sym, arith,
}
use gtools.Python.Exec.{ok}
use gtools.Python.Struct.{Bytes, little, unsigned, Floats}
use gtools.Python.Struct.Laws.{Packs, unsigned-Packs}
use gtools.Python.Struct.Fields.{unpack_from-Packs}
use gtools.StrKv.Table.{StrKv, copy}
use gtools.StrKv.Table
use gtools.StrKv.RoundTrip.{IsTable, deserialize-serialize-copy}
use gtools.Packet.Types.{
  NetType, server_hello, generic_text, game_message, tank_packet, error, track, client_log_request,
  client_log_response, sync_client_position, write_to_ring_buffer, net_code,
}
use gtools.Packet.Numbers.{parse_net_type-net_code, net_code-lt}
use gtools.Packet.Tank.{Mode, accepts, TankPacket}
use gtools.Packet.TankRoundTrip.{Fits, tank_bytes, serialize-tank_bytes, deserialize-tank_bytes}
use gtools.Packet.Net.{
  Message, empty, tank, text, raw, NetPacket, anomaly, body, write_message, read_message, serialize,
  deserialize,
}

type_word : (t : NetType) → Packs (unsigned 4) little (net_code t)
type_word t = unsigned-Packs 4 little (net_code t) (omega (arith, net_code-lt t))

-- The body is what stands between the type word and the anomaly byte.
body_lem :
    (compensate : Bool) (w b : Bytes)
    → length w ≡ 4
    → body compensate (w ++ b ++ anomaly compensate) ≡ b
body_lem true w b h = rw (append_assoc w b (0 ∷ [])) (
    slice_middle w b (0 ∷ []) 4 (length (w ++ (b ++ 0 ∷ [])) - 1) (sym h)
      (omega (arith, length-append w (b ++ 0 ∷ []), length-append b (0 ∷ []))))
body_lem false w b h = rw (append-nil (w ++ b)) (drop-append_length w b 4 (sym h))

module _ {F : Type 0} ⦃fl : Floats F⦄ where
  -- Messages that the type stands for, which their writers can write and their readers accept.
  pub data IsSendable (m : Mode) : NetType → Message F → Type 0 where
    sends_hello : IsSendable m server_hello empty
    sends_error : IsSendable m error empty
    sends_log_request : IsSendable m client_log_request empty
    sends_log_response : IsSendable m client_log_response empty
    sends_tank :
        (t : TankPacket F) → Fits t → accepts m t ≡ true → IsSendable m tank_packet (tank t)
    sends_text : (s : StrKv) → IsTable s.rows → IsSendable m generic_text (text s)
    sends_game_message : (s : StrKv) → IsTable s.rows → IsSendable m game_message (text s)
    sends_track : (s : StrKv) → IsTable s.rows → IsSendable m track (text s)
    sends_position : (b : Bytes) → IsSendable m sync_client_position (raw b)
    sends_ring_buffer : (b : Bytes) → IsSendable m write_to_ring_buffer (raw b)

  -- A table arrives with a key map built anew, all else as it was.
  abbrev pub received : Message F → Message F
  received empty = empty
  received (tank t) = tank t
  received (text s) = text (copy s)
  received (raw b) = raw b

  pub message_back :
      (m : Mode) (t : NetType) (x : Message F)
      → IsSendable m t x
      → (b : Bytes) × (write_message x ≡ ok b) × (read_message t m b ≡ ok (received x))
  unfolding write_message read_message
  message_back m t x sends_hello = ([], refl, refl)
  message_back m t x sends_error = ([], refl, refl)
  message_back m t x sends_log_request = ([], refl, refl)
  message_back m t x sends_log_response = ([], refl, refl)
  message_back m t x (sends_tank p h a) =
      (tank_bytes p h, serialize-tank_bytes p h, rw (deserialize-tank_bytes p h m, a))
  message_back m t x (sends_text s h) =
      (Table.serialize s, refl, rw (deserialize-serialize-copy s h))
  message_back m t x (sends_game_message s h) =
      (Table.serialize s, refl, rw (deserialize-serialize-copy s h))
  message_back m t x (sends_track s h) =
      (Table.serialize s, refl, rw (deserialize-serialize-copy s h))
  message_back m t x (sends_position b) = (b, refl, refl)
  message_back m t x (sends_ring_buffer b) = (b, refl, refl)

  -- A packet whose type fits its message is written and read back, with the setting for the anomaly
  -- byte alike on both sides; a table arrives as a copy of itself. The fields of a tank packet are in
  -- the range of their formats, its floats such as are read back, and the mode accepts the packet; a
  -- table has no newline or pipe in a cell, no row of one empty cell, and is not a single row without
  -- cells.
  pub deserialize-serialize-received :
      (compensate : Bool) (m : Mode) (p : NetPacket F)
      → IsSendable m p.type p.message
      → (b : Bytes) × (serialize compensate p ≡ ok b)
        × (deserialize compensate b m ≡ ok (record p { message = received p.message }))
  unfolding serialize deserialize
  deserialize-serialize-received compensate m p h =
      let (b, written, read) = message_back m p.type p.message h in
      let w = type_word p.type in
      (
        w.bytes ++ b ++ anomaly compensate,
        rw (w.packed, written),
        rw (
          append_assoc w.bytes b (anomaly compensate),
          take-append_length w.bytes (b ++ anomaly compensate) 4 (sym w.sized),
          unpack_from-Packs w,
          parse_net_type-net_code p.type,
          ← append_assoc w.bytes b (anomaly compensate),
          body_lem compensate w.bytes b w.sized,
          read,
        ),
      )
