-- ===== src/Kitchen.antt =====
-- The kitchen store (modules/kitchen).
pub mod Fefo
pub mod Rules
pub mod Errors
pub mod Store
pub mod Orders
pub mod Tests
