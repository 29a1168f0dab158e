-- ===== src/Inventory.antt =====
-- The inventory of devices (modules/inventory).
pub mod Ledger
pub mod Units
pub mod Tests
