-- ===== src/Inventory/Tests.antt =====
-- Movements of devices, and the theorems at them.
pub mod Units
