-- ===== src/World.antt =====
-- gtools/core/growtopia/world.py: the bytes of tiles and their extras; with gtools/proxy/state.py, the
-- items that lie in a world, and how the player takes them.
pub mod Dropped
pub mod Taken
pub mod Counted
pub mod Extra
pub mod Tile
pub mod Tiles
pub mod Wire
pub mod Recover
pub mod Load
pub mod Loaded
pub mod Recovered
pub mod Ended
pub mod Backwards
pub mod Exchanged
