-- ===== src/Crypto.antt =====
-- gtools/core/growtopia/crypto.py: checksums and the time in a request id.
pub mod Hash
pub mod Rid
