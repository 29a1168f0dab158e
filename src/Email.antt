-- ===== src/Email.antt =====
-- The queue of outgoing mail (core/services/email-queue.ts).
pub mod Queue
pub mod Tests
