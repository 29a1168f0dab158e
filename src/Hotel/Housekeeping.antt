-- ===== src/Hotel/Housekeeping.antt =====
-- Housekeeping tasks (modules/hotel-store/services/housekeeping.service.ts and task-rules.ts), with
-- the kits of hotel-catalog-rules.ts.
pub mod Rules
pub mod Tables
pub mod Service
pub mod Finish
pub mod Laws
