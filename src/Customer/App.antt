-- ===== src/Customer/App.antt =====
-- customer-service/src/app.ts and routes/index.ts: the routes of the service in their order.
use ecommerce_microservice.Prelude.{ℕ, String, Bool, Option, List, [], ◌∷◌}
use ecommerce_microservice.Shared.Json.{Json}
use ecommerce_microservice.Shared.Action.{Outcome}
use ecommerce_microservice.Shared.Logger.{Logger}
use ecommerce_microservice.Shared.Headers.{Headers}
use ecommerce_microservice.Shared.Metrics.{Registry}
use ecommerce_microservice.Shared.Middleware.{Gate, Validation}
use ecommerce_microservice.Shared.App
use ecommerce_microservice.Shared.App.{
  HttpCall, Received, Response, Route, among, health_endpoint, metrics_endpoint,
}
use ecommerce_microservice.Mongo.{Collection}
use ecommerce_microservice.Customer.Service.{Customer}
use ecommerce_microservice.Customer.Routes.{Request, create_customer_module}

abbrev pub request_of : Received → Request
request_of q = record { headers = q.headers; params = q.params }

module _ {W : Type 0} (logger : Logger W) (schema : Json → Validation String)
    (internal_api_key : String) (lookup_limiter : Gate W) (customers : Collection W Customer)
    (setter : String → String) (registry : Registry W) (is_database_connected : W → Bool)
    (now : W → ℕ × W) where
  unfoldable pub create_routes : List (Route W Customer)
  create_routes =
      health_endpoint "customer-service" is_database_connected now
      ∷ metrics_endpoint registry
      ∷ record {
        method = "GET";
        pattern = "/customers/:customerId";
        path = "/:customerId";
        handler = λ q w.
            among (λ c. c)
              (create_customer_module logger schema internal_api_key lookup_limiter customers setter
                (request_of q) w);
      }
      ∷ []

  unfoldable pub create_app :
      (String → String → HttpCall → Option Json)
      → (Headers → Headers)
      → (String → Outcome Json)
      → (W → String × W)
      → HttpCall
      → W
      → Option (Response Customer) × W
  create_app matches helmet json uuid =
      App.create_app matches helmet json uuid registry create_routes logger
