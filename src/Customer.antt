-- ===== src/Customer.antt =====
-- customer-service/src: the service that knows the customers.
pub mod Config
pub mod Service
pub mod Routes
pub mod App
pub mod Server
pub mod Seed
pub mod Directory
mod Tests
