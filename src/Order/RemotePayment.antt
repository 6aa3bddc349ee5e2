-- ===== src/Order/RemotePayment.antt =====
-- A payment that the order service asks for over HTTP, up to the broker of the payment service.
use ecommerce_microservice.Prelude.{ℕ, String, ◌≡◌, ◌⊎◌}
use ecommerce_microservice.Shared.Json.{Json}
use ecommerce_microservice.Shared.Action.{Action, ◌>>=◌}
use ecommerce_microservice.Shared.Logger.{Logger}
use ecommerce_microservice.Shared.Headers.{Headers}
use ecommerce_microservice.Shared.Dtos.{
  ApiSuccessResponse, InitiatePaymentRequest, InitiatePaymentResponse,
}
use ecommerce_microservice.Shared.Broker.{ConfirmChannel}
use ecommerce_microservice.Shared.Dtos.{TransactionCreatedEvent}
use ecommerce_microservice.Shared.ErrorHandler.{Reply}
use ecommerce_microservice.Shared.HttpClient.{HttpClient, HttpRequest, Transport}
use ecommerce_microservice.Shared.Network.{Carries}
use ecommerce_microservice.Shared.Middleware.{Validation, valid, invalid, validate_request}
use ecommerce_microservice.Payment.Service
use ecommerce_microservice.Payment.Service.{PaymentService, publish_transaction_created}
use ecommerce_microservice.Payment.Module.{create_payment_module}
use ecommerce_microservice.Order.Clients

-- A request as the payment service's route reads it, with the correlation id that
-- correlationIdMiddleware set.
pub record PaymentRequest : Type 0 where
  pub correlation_id : String
  pub headers : Headers
  pub body : Json

-- The handler behind the middleware.
abbrev answer_payment :
    {W : Type 0}
    → PaymentService W
    → (Json → Validation InitiatePaymentRequest)
    → PaymentRequest
    → Action W (Reply InitiatePaymentResponse)
answer_payment s schema r = validate_request schema r.body >>= λ request.
    Service.initiate_payment s request r.correlation_id

module _ {W : Type 0} (channel : ConfirmChannel W TransactionCreatedEvent) (logger : Logger W)
    (uuid : W → String × W) (now : W → ℕ × W) (schema : Json → Validation InitiatePaymentRequest)
    (key : String) where
  abbrev pub payment_route_of : PaymentRequest → W → Reply InitiatePaymentResponse × W
  payment_route_of r =
      create_payment_module logger channel uuid now schema key r.correlation_id r.headers r.body

  -- That the headers arrive, and that a body which the schema accepts is read as it was sent.
  pub record PaymentNetwork
      (t : Transport W InitiatePaymentRequest (ApiSuccessResponse InitiatePaymentResponse))
      : Type 0 where
    pub carries : Carries t payment_route_of
    pub keeps_headers :
        (r : HttpRequest InitiatePaymentRequest) → (carries.arrives r).headers ≡ r.headers
    pub reads_body :
        (r : HttpRequest InitiatePaymentRequest)
        → (schema (carries.arrives r).body ≡ valid r.body)
          ⊎ ((errors : Json) × (schema (carries.arrives r).body ≡ invalid errors))

      -- A body that the schema refuses is not answered with success.
