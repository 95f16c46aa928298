-- ===== src/Packet/Prepared.antt =====
-- `PreparedPacket`: a packet beside its bytes, its direction and its flags.
use gtools.Prelude.{ℕ, Bool}
use gtools.Python.Exec.{Result, map_ok}
use gtools.Python.Struct.{Bytes, Floats}
use gtools.Packet.Tank.{relaxed}
use gtools.Packet.Net.{NetPacket}
use gtools.Packet.Net

pub record PreparedPacket (F : Type 0) : Type 0 where
  pub packet : NetPacket F
  pub packet_raw : Bytes
  pub direction : ℕ
  pub flags : ℕ

module _ {F : Type 0} ⦃fl : Floats F⦄ (compensate : Bool) where
  -- `PreparedPacket(packet, direction, flags)` of a packet, and of bytes
  unfoldable pub of_packet : NetPacket F → ℕ → ℕ → Result (PreparedPacket F)
  of_packet p direction flags =
      map_ok (λ b. record { packet = p; packet_raw = b; direction = direction; flags = flags })
        (Net.serialize compensate p)

  unfoldable pub of_bytes : Bytes → ℕ → ℕ → Result (PreparedPacket F)
  of_bytes b direction flags =
      map_ok (λ p. record { packet = p; packet_raw = b; direction = direction; flags = flags })
        (Net.deserialize compensate b relaxed)
