-- ===== src/Payment/App.antt =====
-- payment-service/src/app.ts and routes/index.ts: the routes of the service in their order.
use ecommerce_microservice.Prelude.{ℕ, String, Bool, Option, List, [], ◌∷◌}
use ecommerce_microservice.Shared.Json.{Json}
use ecommerce_microservice.Shared.Action.{Outcome}
use ecommerce_microservice.Shared.Logger.{Logger}
use ecommerce_microservice.Shared.Headers.{Headers}
use ecommerce_microservice.Shared.Metrics.{Registry}
use ecommerce_microservice.Shared.Broker.{ConfirmChannel}
use ecommerce_microservice.Shared.Dtos.{
  InitiatePaymentRequest, InitiatePaymentResponse, TransactionCreatedEvent,
}
use ecommerce_microservice.Shared.Middleware.{Validation}
use ecommerce_microservice.Shared.App
use ecommerce_microservice.Shared.App.{
  HttpCall, Received, Response, Route, among, health_endpoint, metrics_endpoint,
}
use ecommerce_microservice.Payment.Module.{create_payment_module}

module _ {W : Type 0} (logger : Logger W) (channel : ConfirmChannel W TransactionCreatedEvent)
    (uuid : W → String × W) (now : W → ℕ × W) (schema : Json → Validation InitiatePaymentRequest)
    (internal_api_key : String) (registry : Registry W) (is_ready : W → Bool) where
  unfoldable pub create_routes : List (Route W InitiatePaymentResponse)
  create_routes =
      health_endpoint "payment-service" is_ready now
      ∷ metrics_endpoint registry
      ∷ record {
        method = "POST";
        pattern = "/payments/";
        path = "/";
        handler = λ q w.
            among (λ a. a)
              (create_payment_module logger channel uuid now schema internal_api_key
                q.correlation_id q.headers q.body w);
      }
      ∷ []

  unfoldable pub create_app :
      (String → String → HttpCall → Option Json)
      → (Headers → Headers)
      → (String → Outcome Json)
      → HttpCall
      → W
      → Option (Response InitiatePaymentResponse) × W
  create_app matches helmet json =
      App.create_app matches helmet json uuid registry create_routes logger
