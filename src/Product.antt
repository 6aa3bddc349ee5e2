-- ===== src/Product.antt =====
-- product-service/src: the owner of the catalogue and of the stock counts.
pub mod Config
pub mod Model
pub mod Repository
pub mod Service
pub mod Routes
pub mod StockRoute
pub mod ReleaseRoute
pub mod StockQuiet
pub mod Module
pub mod App
pub mod Server
pub mod Seed
pub mod Stock
pub mod Refusals
pub mod Sharing
pub mod Reads
pub mod ReadOnly
mod AppTests
mod Tests
