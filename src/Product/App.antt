-- ===== src/Product/App.antt =====
-- product-service/src/app.ts, routes/index.ts and server.ts: the routes of the service in their order.
use ecommerce_microservice.Prelude.{ℕ, String, Bool, Option, List, [], ◌∷◌}
use ecommerce_microservice.Shared.Json.{Json}
use ecommerce_microservice.Shared.Action.{Outcome}
use ecommerce_microservice.Shared.Logger.{Logger}
use ecommerce_microservice.Shared.Headers.{Headers}
use ecommerce_microservice.Shared.Metrics.{Registry}
use ecommerce_microservice.Shared.Middleware.{Gate}
use ecommerce_microservice.Shared.App
use ecommerce_microservice.Shared.App.{
  HttpCall, Received, Response, Route, among, health_endpoint, metrics_endpoint,
}
use ecommerce_microservice.Mongo.{Collection}
use ecommerce_microservice.Product.Model.{Product}
use ecommerce_microservice.Product.Repository.{PaginatedResult}
use ecommerce_microservice.Product.Routes.{ProductSchemas, Request}
use ecommerce_microservice.Product.Module.{ProductRouter, create_product_module}

-- The contents of the service's answers.
pub data ProductContent : Type 0 where
  one_product : Product → ProductContent
  product_page : PaginatedResult Product → ProductContent

abbrev pub request_of : Received → Request
request_of q = record { headers = q.headers; params = q.params; query = q.query; body = q.body }

module _ {W : Type 0} where
  -- `router.use('/products', …)`
  abbrev pub mounted : ProductRouter W → List (Route W ProductContent)
  mounted router =
      record {
        method = "GET";
        pattern = "/products/";
        path = "/";
        handler = λ q w. among product_page (router.list_products (request_of q) w);
      }
      ∷ record {
        method = "GET";
        pattern = "/products/:productId";
        path = "/:productId";
        handler = λ q w. among one_product (router.get_product (request_of q) w);
      }
      ∷ record {
        method = "PATCH";
        pattern = "/products/:productId/reserve";
        path = "/:productId/reserve";
        handler = λ q w. among one_product (router.reserve_stock (request_of q) w);
      }
      ∷ record {
        method = "PATCH";
        pattern = "/products/:productId/release";
        path = "/:productId/release";
        handler = λ q w. among one_product (router.release_stock (request_of q) w);
      }
      ∷ []

module _ {W : Type 0} (logger : Logger W) (schemas : ProductSchemas) (internal_api_key : String)
    (read_limiter mutation_limiter : Gate W) (products : Collection W Product)
    (registry : Registry W) (is_database_connected : W → Bool) (now : W → ℕ × W) where
  unfoldable pub create_routes : List (Route W ProductContent)
  create_routes =
      health_endpoint "product-service" is_database_connected now
      ∷ metrics_endpoint registry
      ∷ mounted (
          create_product_module logger schemas internal_api_key read_limiter mutation_limiter
            products)

  module _ (matches : String → String → HttpCall → Option Json) (helmet : Headers → Headers)
      (json : String → Outcome Json) (uuid : W → String × W) where
    unfoldable pub create_app : HttpCall → W → Option (Response ProductContent) × W
    create_app = App.create_app matches helmet json uuid registry create_routes logger
