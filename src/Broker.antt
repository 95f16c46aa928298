-- ===== src/Broker.antt =====
-- gtools/proxy/extension/server: the broker that shows packets to extensions, and lets them forward,
-- change or cancel them.
pub mod Interests
pub mod TankInterests
pub mod Operands
pub mod Matching
pub mod Handler
pub mod Interested
pub mod Hashing
pub mod Manager
pub mod Pending
pub mod Events
pub mod Replies
pub mod Selected
pub mod Waiting
pub mod Chosen
pub mod Progress
pub mod Termination
pub mod Recurring
pub mod Changes
pub mod Ended
pub mod Repeated
pub mod Scheduler
pub mod Playback
pub mod Runs
pub mod Played
pub mod Spacing
pub mod Order
pub mod Overwritten
