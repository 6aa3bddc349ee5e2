-- ===== src/Order/App.antt =====
-- order-service/src/app.ts and routes/index.ts: the routes of the service in their order.
use ecommerce_microservice.Prelude.{ℕ, String, Bool, ◌&&◌, Option, List, [], ◌∷◌}
use ecommerce_microservice.Shared.Json.{Json}
use ecommerce_microservice.Shared.Action.{Outcome}
use ecommerce_microservice.Shared.Logger.{Logger}
use ecommerce_microservice.Shared.Headers.{Headers}
use ecommerce_microservice.Shared.Metrics.{Registry}
use ecommerce_microservice.Shared.Dtos.{CreateOrderResponse, OrderStatusResponse}
use ecommerce_microservice.Shared.App
use ecommerce_microservice.Shared.App.{
  HttpCall, Received, Response, Route, among, health_endpoint, metrics_endpoint,
}
use ecommerce_microservice.Order.Routes.{Request}
use ecommerce_microservice.Order.Module.{OrderRouter}

-- The contents of the service's answers.
pub data OrderContent : Type 0 where
  order : CreateOrderResponse → OrderContent
  order_status : OrderStatusResponse → OrderContent

abbrev pub request_of : Received → Request
request_of q = record {
  correlation_id = q.correlation_id;
  headers = q.headers;
  params = q.params;
  body = q.body;
}

module _ {W : Type 0} (router : OrderRouter W) where
  -- `router.use('/orders', …)`
  abbrev pub mounted : List (Route W OrderContent)
  mounted =
      record {
        method = "POST";
        pattern = "/orders/";
        path = "/";
        handler = λ q w. among order (router.create (request_of q) w);
      }
      ∷ record {
        method = "GET";
        pattern = "/orders/:orderId/status";
        path = "/:orderId/status";
        handler = λ q w. among order_status (router.status (request_of q) w);
      }
      ∷ record {
        method = "PATCH";
        pattern = "/orders/:orderId/payment-status";
        path = "/:orderId/payment-status";
        handler = λ q w. among order (router.payment_status (request_of q) w);
      }
      ∷ []

  module _ (registry : Registry W) (is_database_connected is_rabbitmq_ready : W → Bool)
      (now : W → ℕ × W) where
    unfoldable pub create_routes : List (Route W OrderContent)
    create_routes =
        health_endpoint "order-service" (λ w. is_database_connected w && is_rabbitmq_ready w) now
        ∷ metrics_endpoint registry
        ∷ mounted

    unfoldable pub create_app :
        Logger W
        → (String → String → HttpCall → Option Json)
        → (Headers → Headers)
        → (String → Outcome Json)
        → (W → String × W)
        → HttpCall
        → W
        → Option (Response OrderContent) × W
    create_app logger matches helmet json uuid =
        App.create_app matches helmet json uuid registry create_routes logger
