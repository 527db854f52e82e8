-- ===== src/Queue.antt =====
-- algors-queue: the bounded queues between threads.
pub mod Spsc
pub mod Mpmc
