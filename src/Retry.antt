-- ===== src/Retry.antt =====
-- payment-retry-worker/src: the worker that tries a payment again.
pub mod Config
pub mod Processor
pub mod Clients
pub mod Worker
pub mod Started
pub mod Outcomes
pub mod Cycle
pub mod Charges
pub mod Restraint
pub mod Confirms
mod NetworkTests
mod StartTests
mod Tests
