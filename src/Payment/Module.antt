-- ===== src/Payment/Module.antt =====
-- payment-service/src/modules/paymentModule.ts, over the publisher of
-- rabbitmq/RabbitMQTransactionPublisher.ts, as server.ts puts them together.
use ecommerce_microservice.Prelude.{ℕ, String}
use ecommerce_microservice.Shared.Json.{Json}
use ecommerce_microservice.Shared.Logger.{Logger}
use ecommerce_microservice.Shared.Headers.{Headers}
use ecommerce_microservice.Shared.Broker.{ConfirmChannel}
use ecommerce_microservice.Shared.Dtos.{
  InitiatePaymentRequest, InitiatePaymentResponse, TransactionCreatedEvent,
}
use ecommerce_microservice.Shared.ErrorHandler.{Reply}
use ecommerce_microservice.Shared.Middleware.{Validation}
use ecommerce_microservice.Payment.Service.{
  PaymentService, publish_transaction_created, payment_route,
}

module _ {W : Type 0} (logger : Logger W) (channel : ConfirmChannel W TransactionCreatedEvent)
    (random_uuid : W → String × W) (now : W → ℕ × W) where
  unfoldable pub new_payment_service : PaymentService W
  new_payment_service = record {
    publish_transaction_created = publish_transaction_created channel logger;
    random_uuid = random_uuid;
    now = now;
  }

  -- The router, which is its one route: the correlation id, the headers and the body of a request.
  unfoldable pub create_payment_module :
      (Json → Validation InitiatePaymentRequest)
      → String
      → String
      → Headers
      → Json
      → W
      → Reply InitiatePaymentResponse × W
  create_payment_module schema internal_api_key =
      payment_route new_payment_service logger schema internal_api_key
