-- ===== src/StrKv.antt =====
-- gtools/core/growtopia/strkv.py: a table of byte strings with an index of the rows by their first
-- cell. Values come as bytes (`_to_bytes` is the caller's); slices have step 1 and bounds that are
-- not negative.
pub mod Text
pub mod RoundTrip
pub mod Keys
pub mod Subscripts
pub mod Stale
pub mod Table
pub mod Methods
pub mod Proxies
