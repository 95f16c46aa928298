-- ===== src/Tests.antt =====
-- Runs of the definitions on concrete inputs, and each theorem at an input that meets its
-- hypotheses.
mod BufferTests
mod VariantTests
mod PacketTests
mod InventoryTests
mod AckQueueTests
mod CryptoTests
mod EventBusTests
mod StrKvTests
mod BrokerData
mod BrokerTests
mod SchedulerTests
mod WorldTests
mod TileTests
mod WorldBytesTests
