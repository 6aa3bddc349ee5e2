-- ===== src/Product/Module.antt =====
-- product-service/src/modules/productModule.ts: the routes over the repository of a collection.
use ecommerce_microservice.Prelude.{String}
use ecommerce_microservice.Shared.Logger.{Logger}
use ecommerce_microservice.Shared.ErrorHandler.{Reply}
use ecommerce_microservice.Shared.Middleware.{Gate}
use ecommerce_microservice.Mongo.{Collection}
use ecommerce_microservice.Product.Model.{Product}
use ecommerce_microservice.Product.Repository.{PaginatedResult, mongo_product_repository}
use ecommerce_microservice.Product.Routes.{
  ProductSchemas, Request, list_products_route, get_product_route, reserve_route, release_route,
}

-- The router, by its routes under `/products`.
pub record ProductRouter (W : Type 0) : Type 0 where
  pub list_products : Request → W → Reply (PaginatedResult Product) × W
  pub get_product : Request → W → Reply Product × W
  pub reserve_stock : Request → W → Reply Product × W
  pub release_stock : Request → W → Reply Product × W

unfoldable pub create_product_module :
    {W : Type 0}
    → Logger W
    → ProductSchemas
    → String
    → Gate W
    → Gate W
    → Collection W Product
    → ProductRouter W
create_product_module logger schemas internal_api_key read_limiter mutation_limiter products =
    let repo = mongo_product_repository products in
    record {
      list_products =
          list_products_route logger schemas internal_api_key read_limiter mutation_limiter repo;
      get_product =
          get_product_route logger schemas internal_api_key read_limiter mutation_limiter repo;
      reserve_stock =
          reserve_route logger schemas internal_api_key read_limiter mutation_limiter repo;
      release_stock =
          release_route logger schemas internal_api_key read_limiter mutation_limiter repo;
    }
