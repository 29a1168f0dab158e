-- ===== src/TimeClock.antt =====
-- Attendance clocks (modules/time-clock).
pub mod Roster
pub mod Tests
