-- ===== src/Hotel/Stocktake.antt =====
-- Physical counts (modules/hotel-store/services/stocktake-rules.ts and stocktake.service.ts).
pub mod Rules
pub mod Service
pub mod Laws
