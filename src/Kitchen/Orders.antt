-- ===== src/Kitchen/Orders.antt =====
-- The purchase orders of the kitchen (modules/kitchen/services/purchase-order.service.ts).
pub mod Tables
pub mod Rows
pub mod Lines
pub mod Policies
pub mod Service
pub mod Receipt
pub mod Reach
