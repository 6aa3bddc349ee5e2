-- ===== src/Customer/Routes.antt =====
-- customer-service/src/routes/customerRoutes.ts and modules/customerModule.ts: the handler behind its
-- middlewares. The limiter and Joi's reading of the schema are parameters.
use ecommerce_microservice.Prelude.{String, [], ◌∷◌}
use ecommerce_microservice.Shared.Json.{Json}
use ecommerce_microservice.Shared.Action.{◌>>=◌}
use ecommerce_microservice.Shared.Logger.{Logger}
use ecommerce_microservice.Shared.Headers.{Headers, header, correlation_id_header}
use ecommerce_microservice.Shared.ErrorHandler.{Reply, async_handler}
use ecommerce_microservice.Shared.Middleware.{
  Gate, Validation, guarded_by, internal_auth, validate_request,
}
use ecommerce_microservice.Mongo.{Collection}
use ecommerce_microservice.Customer.Service.{
  Customer, CustomerRepository, get_customer, mongo_customer_repository,
}

pub record Request : Type 0 where
  pub headers : Headers
  pub params : Json

module _ {W : Type 0} (logger : Logger W) (schema : Json → Validation String)
    (internal_api_key : String) (lookup_limiter : Gate W) where
  unfoldable pub get_customer_route : CustomerRepository W → Request → W → Reply Customer × W
  get_customer_route repo request =
      async_handler logger (header correlation_id_header request.headers) (
        guarded_by (lookup_limiter ∷ internal_auth internal_api_key request.headers ∷ [])
          do customer_id ← validate_request schema request.params; get_customer repo customer_id)

  -- The router, which is its one route under `/customers`.
  unfoldable pub create_customer_module :
      Collection W Customer → (String → String) → Request → W → Reply Customer × W
  create_customer_module customers setter =
      get_customer_route (mongo_customer_repository customers setter)
