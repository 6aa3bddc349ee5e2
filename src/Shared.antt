-- ===== src/Shared.antt =====
-- shared/src: the library that every service uses.
pub mod Json
pub mod Errors
pub mod Action
pub mod Logger
pub mod Headers
pub mod Dtos
pub mod ErrorHandler
pub mod HttpClient
pub mod Network
pub mod Leaves
pub mod Schema
pub mod Launch
pub mod App
pub mod Middleware
pub mod Topology
pub mod Broker
pub mod Connection
pub mod Shutdown
pub mod Monitoring
pub mod RateLimiter
pub mod Metrics
mod Tests
