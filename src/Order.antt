-- ===== src/Order.antt =====
-- order-service/src: the service that runs a checkout.
pub mod Config
pub mod Model
pub mod Repository
pub mod Clients
pub mod Dependencies
pub mod Service
pub mod Requests
pub mod Restraint
pub mod Degradation
pub mod Quiet
pub mod Ledger
pub mod Documents
pub mod Recorded
pub mod Status
pub mod Routes
pub mod LostAnswers
pub mod RemoteStock
pub mod RemotePayment
pub mod PaidOnRecord
pub mod Accepted
pub mod Confirmed
pub mod RemoteCheckout
pub mod ClientsQuiet
pub mod RemoteTotals
pub mod RemoteLedger
pub mod StatusRoute
pub mod Module
pub mod App
pub mod Server
mod NetworkTests
mod RemoteTests
mod PaymentTests
mod CheckoutTests
mod TownTests
mod Tests
