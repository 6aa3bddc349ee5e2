-- ===== src/Order/RemoteCheckout.antt =====
-- A checkout that is answered as confirmed, up to the broker of the payment service.
use ecommerce_microservice.Shared.Json.{Json}
use ecommerce_microservice.Shared.Action.{Action}
use ecommerce_microservice.Shared.Logger.{Logger}
use ecommerce_microservice.Shared.HttpClient.{HttpClient}
use ecommerce_microservice.Order.Model.{Order}
use ecommerce_microservice.Order.Clients
