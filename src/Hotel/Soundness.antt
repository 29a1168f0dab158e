-- ===== src/Hotel/Soundness.antt =====
-- The invariant of the hotel store, kept by every operation on movements.
pub mod Invariant
pub mod Shaped
pub mod Settled
pub mod Decided
pub mod Requested
pub mod Reversal
