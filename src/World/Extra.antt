-- ===== src/World/Extra.antt =====
-- gtools/core/growtopia/world.py: the tile extras. A class is a record with its reader, its writer and
-- what its fields must satisfy to fit; the classes stand in modules by what the tiles are for.
pub mod Loops
pub mod Carried
pub mod Items
pub mod Signs
pub mod Labels
pub mod Counters
pub mod Shops
pub mod Clothes
pub mod Portraits
pub mod Machines
pub mod Weather
pub mod Fish
pub mod Pets
pub mod Stores
pub mod Locks
pub mod Guilds
pub mod Engines
pub mod Blocks
pub mod Npcs
pub mod Bodies
pub mod Registry
pub mod Registered
pub mod Codec
pub mod RoundTrip
pub mod Tempo
pub mod ItemTypes
