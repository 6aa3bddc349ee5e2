-- ===== src/Transaction.antt =====
-- transaction-worker/src: the worker that keeps the history of payments.
pub mod Config
pub mod Processor
pub mod Worker
pub mod Redelivery
mod Tests
