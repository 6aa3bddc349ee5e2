-- ===== src/Lib.antt =====
-- A model of the e-commerce microservices, and what makes them correct.
--
-- A checkout runs in order-service: it asks customer-service and product-service over HTTP,
-- reserves a unit of stock, writes the order to MongoDB and asks payment-service for the payment,
-- which announces it to transaction-worker over RabbitMQ. If payment-service cannot be reached, the
-- order service publishes a retry event, which payment-retry-worker consumes. The services share a
-- library of errors, an HTTP client, middlewares, and a publisher and a consumer of RabbitMQ.
--
-- Prelude        lists, integers, decimal texts and tests over the native numbers.
-- Mongo          a Mongoose model as a parameter, with what MongoDB documents of its calls;
--                Mongo/Memory is a collection in memory that meets these laws, Mongo/Seeding the loop
--                of the seed scripts, and Mongo/Database the services' config/database.ts.
-- Shared         shared/src: Errors, ErrorHandler (errors/), Headers, HttpClient, Middleware,
--                RateLimiter, Metrics (http/ and validation/), Shutdown (http/gracefulShutdown.ts),
--                Broker, Topology, Connection (rabbitmq/), Dtos (types/dtos.ts), Logger (logger/);
--                Action is the reading of asynchronous code, Json what the others need, Leaves the
--                calls that leave a part of the world alone, and Network what is asked of axios and
--                Express where one service calls another. App, Launch, Schema and Monitoring are what
--                the services' app.ts, server.ts, config/env.ts and monitoring.ts share. A connection object is a record that calls, events
--                and timers change one after the other; a shutdown is a machine that events move.
-- Product        product-service/src: Model, Repository, Service, Routes (controllers/ and routes/),
--                Module (modules/), App (app.ts and routes/index.ts), Server (server.ts), Config
--                (config/env.ts and middlewares/schemas.ts), Seed (scripts/seed.ts). Stock, Refusals,
--                Sharing, Reads, ReadOnly, StockRoute, ReleaseRoute and StockQuiet hold theorems.
-- Order          order-service/src: Model, Repository, Clients, and Dependencies and Service for
--                services/OrderService.ts, Routes (controllers/ and routes/), Module (modules/),
--                App, Server and Config as above. Requests, Restraint, Degradation, Ledger, Quiet, Documents,
--                Recorded, PaidOnRecord, Accepted, Confirmed, Status, StatusRoute and LostAnswers
--                hold theorems, and so do RemoteStock, RemoteTotals, RemoteLedger, RemotePayment and
--                RemoteCheckout, about the order service together with the product and the payment
--                service.
-- Customer       customer-service/src (Service, Routes, App, Server, Config, and Seed for
--                scripts/seed.ts), and what a lookup finds (Directory).
-- Retry          payment-retry-worker/src: PaymentRetryProcessor.ts (Processor), clients/ and what
--                worker.ts builds of them (Clients, Worker), one delivery of an event (Outcomes), its
--                life through the delay queue (Cycle, Charges), what it may ask for (Restraint), what it does to the order (Confirms),
--                and a worker that has started (Started).
-- Payment        payment-service/src (Service, Module, App, Server, Config, and Rabbitmq for
--                config/rabbitmq.ts); a payment that is accepted was announced (Announced); the
--                publisher after a reconnection (Stale); how a start ends (Started); requests without
--                the internal key (Keyless).
-- Transaction    transaction-worker/src (Processor, and Worker for worker.ts and monitoring.ts), and
--                what redelivery does to it (Redelivery).
--
-- A function keeps its name in snake case, a class becomes a record of what its methods use, and
-- `await`, `throw` and `try` become an Action: a function from the state of the world to an outcome
-- and a world. Long methods are cut where the code has a branch or a `try`, and the comment on each
-- piece says which part it is. What is not part of the repository is a parameter with named laws:
-- MongoDB (Collection), axios and opossum (Transport), amqplib's connections and channels (Amqp,
-- ConfirmChannel, Subscriber, Delivery), pino (Logger), Joi (Validation), express-rate-limit
-- (Gate), uuid and the clock.
--
-- Amounts are natural numbers of thousandths, so that the tolerance of 0.001 is 1. A stock is an
-- integer, since an unguarded decrement could take it below zero. The retry loop of the HTTP client
-- is recursion on the rounds that are left, one more than the retries, and so are the attempts to
-- connect to RabbitMQ, as many as the options say; the life of a retry event is bounded by fuel,
-- which is enough from three rounds on.
--
-- A write to one document is applied as a whole or not at all, also when the call fails; what leaves
-- out a failure after the write says so. A log line is one text: its message, and for an error also
-- what the error handler logs with it.
--
-- Not modelled: what Joi and pino make of the schemas and settings that are given to them, the counting
-- of express-rate-limit, the breaker's own state, Express's matching of paths and reading of bodies, the
-- fields other than those of errors that are logged with a message, the order in which an unsorted query
-- returns documents, and calls of one connection object that overlap: each runs to its end before the
-- next starts.
pub mod Prelude
pub mod Shared
pub mod Mongo
pub mod Product
pub mod Order
pub mod Retry
pub mod Customer
pub mod Payment
pub mod Transaction
