-- ===== src/Hotel.antt =====
-- The hotel store (modules/hotel-store).
pub mod Errors
pub mod Kardex
pub mod Positions
pub mod Tables
pub mod Transaction
pub mod Stock
pub mod Posting
pub mod Decision
pub mod Soundness
pub mod Stocktake
pub mod Housekeeping
pub mod Tests
