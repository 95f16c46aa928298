-- ===== src/Inventory.antt =====
-- gtools/core/growtopia/inventory.py: items, their amounts, and the inventory message.
pub mod Items
pub mod Wire
pub mod Amounts
pub mod RoundTrip
