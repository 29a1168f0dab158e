-- ===== src/Kitchen/Store/Soundness.antt =====
-- The invariant of the kitchen store, and what its operations keep.
pub mod Balance
pub mod Kept
pub mod Reach
pub mod Taken
pub mod Items
pub mod Counts
pub mod Entered
pub mod Refined
pub mod Reversed
pub mod Replayed
