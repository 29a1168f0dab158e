-- ===== src/Kitchen/Store.antt =====
-- The stock of the kitchen (modules/kitchen/services/kitchen-stock.service.ts).
pub mod Tables
pub mod Movement
pub mod Operations
pub mod Register
pub mod Soundness
