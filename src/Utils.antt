-- ===== src/Utils.antt =====
-- algors-utils: how a thread waits.
pub mod Backoff
pub mod Waiter
mod Tests
