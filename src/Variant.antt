-- ===== src/Variant.antt =====
-- gtools/core/growtopia/variant.py: lists of tagged values, and their wire format: a count byte,
-- then for each value an index byte, a kind byte and the payload, little endian. A float is of a
-- type F that the program does not implement; the log lines of a truncated payload are left out.
pub mod Value
pub mod Wire
pub mod View
pub mod Remaining
pub mod Encoding
pub mod RoundTrip
pub mod Indexing
pub mod Truncation
