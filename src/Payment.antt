-- ===== src/Payment.antt =====
-- payment-service/src: the service that accepts payments and announces them.
pub mod Config
pub mod Service
pub mod Rabbitmq
pub mod Module
pub mod App
pub mod Server
pub mod Announced
pub mod Stale
pub mod Started
pub mod Keyless
mod BrokerTests
mod AppTests
mod Tests
