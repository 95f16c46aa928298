-- ===== src/Packet.antt =====
-- gtools/core/growtopia/packet.py: tank packets, and the packets that carry them.
pub mod Types
pub mod Numbers
pub mod Tank
pub mod Net
pub mod Prepared
pub mod TankRoundTrip
pub mod NetRoundTrip
pub mod Calls
