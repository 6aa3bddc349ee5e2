-- ===== src/Product/Routes.antt =====
-- product-service/src/controllers/ProductController.ts and routes/productRoutes.ts: the handlers
-- behind their middlewares. The limiters are express-rate-limit's and the schemas are read by Joi,
-- and so both are parameters; a route takes the part of the request that its schema reads.
use ecommerce_microservice.Prelude.{ℕ, String, ◌≡◌, ◌≢◌, ◌∙◌, inl, inr, [], ◌∷◌, some}
use ecommerce_microservice.Shared.Json.{Json}
use ecommerce_microservice.Shared.Action.{Action, pure, settled, ◌>>=◌}
use ecommerce_microservice.Shared.Logger.{Logger, LogLevel}
use ecommerce_microservice.Shared.Headers.{
  Headers, header, internal_api_key_header, correlation_id_header,
}
use ecommerce_microservice.Shared.ErrorHandler.{Reply, success, async_handler}
use ecommerce_microservice.Shared.Middleware.{
  Gate, next, respond, Validation, guarded_by, internal_auth, validate_request,
}
use ecommerce_microservice.Shared.Leaves.{log_error-Leaves}
use ecommerce_microservice.Shared.Middleware.Laws.{internal_auth-refuses}
use ecommerce_microservice.Product.Service
use ecommerce_microservice.Product.Model.{Product}
use ecommerce_microservice.Product.Repository.{ProductRepository, PaginatedResult}
use ecommerce_microservice.Product.Service.{get_product_by_id, list_products}

-- The numbers of `listProductsQuerySchema`, with its defaults filled in.
pub record ListQuery : Type 0 where
  pub page : ℕ
  pub page_size : ℕ

pub record ProductSchemas : Type 0 where
  pub get_product_params : Json → Validation String
  pub list_products_query : Json → Validation ListQuery
  pub stock_mutation : Json → Validation ℕ

pub record Request : Type 0 where
  pub headers : Headers
  pub params : Json
  pub query : Json
  pub body : Json

module _ {W : Type 0} (repo : ProductRepository W) where
  unfoldable pub get_product : String → Action W (Reply Product)
  get_product product_id = do
    product ← get_product_by_id repo product_id
    pure (success 200 product)

  unfoldable pub list_products_page : ListQuery → Action W (Reply (PaginatedResult Product))
  list_products_page query = do
    result ← list_products repo query.page query.page_size
    pure (success 200 result)

  unfoldable pub reserve_stock : String → ℕ → Action W (Reply Product)
  reserve_stock product_id quantity = do
    product ← Service.reserve_stock repo product_id quantity
    pure (success 200 product)

  unfoldable pub release_stock : String → ℕ → Action W (Reply Product)
  release_stock product_id quantity = do
    product ← Service.release_stock repo product_id quantity
    pure (success 200 product)

module _ {W : Type 0} (logger : Logger W) (schemas : ProductSchemas) (internal_api_key : String)
    (read_limiter mutation_limiter : Gate W) (repo : ProductRepository W) where
  abbrev pub answered : {T : Type 0} → Request → Action W (Reply T) → W → Reply T × W
  answered request = async_handler logger (header correlation_id_header request.headers)

  unfoldable pub get_product_route : Request → W → Reply Product × W
  get_product_route request = answered request (
      guarded_by (read_limiter ∷ []) do
        product_id ← validate_request schemas.get_product_params request.params
        get_product repo product_id)

  unfoldable pub list_products_route : Request → W → Reply (PaginatedResult Product) × W
  list_products_route request = answered request (
      guarded_by (read_limiter ∷ []) do
        query ← validate_request schemas.list_products_query request.query
        list_products_page repo query)

  unfoldable pub reserve_route : Request → W → Reply Product × W
  reserve_route request = answered request (
      guarded_by (mutation_limiter ∷ internal_auth internal_api_key request.headers ∷ []) do
        product_id ← validate_request schemas.get_product_params request.params
        quantity ← validate_request schemas.stock_mutation request.body
        reserve_stock repo product_id quantity)

  unfoldable pub release_route : Request → W → Reply Product × W
  release_route request = answered request (
      guarded_by (mutation_limiter ∷ internal_auth internal_api_key request.headers ∷ []) do
        product_id ← validate_request schemas.get_product_params request.params
        quantity ← validate_request schemas.stock_mutation request.body
        release_stock repo product_id quantity)

  answered-refuses :
      {X T : Type 0} (docs : W → X) (request : Request) (w : W)
      → header internal_api_key_header request.headers ≢ some internal_api_key
      → ((u : W) → docs (mutation_limiter u).1 ≡ docs u)
      → ((l : LogLevel) (m : String) (u : W) → docs (logger l m u) ≡ docs u)
      → (handler : Action W (Reply T))
      → docs
          (answered request
            (guarded_by
              (mutation_limiter ∷ internal_auth internal_api_key request.headers ∷ [])
              handler)
            w).1
        ≡ docs w
  unfolding async_handler
  answered-refuses docs request w other limited logs handler =
      let same = limited w in
      elim (settled (mutation_limiter w)) [
        | inr (x, u, e) ↦ rw e (
            log_error-Leaves docs logger logs (header correlation_id_header request.headers) x u
            ∙ (rw e at same))
        | inl (respond status refusal, u, e) ↦ rw e (rw e at same)
        | inl (next, u, e) ↦
            rw (e, internal_auth-refuses handler internal_api_key request.headers u other)
              (rw e at same)
      ]

  -- A PATCH of the stock, a reservation or a release, without the internal key leaves the products
  -- alone, whatever its path and its body say: neither the limiter nor the log writes products.
  pub stock_routes-refuse :
      {X : Type 0} (docs : W → X) (request : Request) (w : W)
      → header internal_api_key_header request.headers ≢ some internal_api_key
      → ((u : W) → docs (mutation_limiter u).1 ≡ docs u)
      → ((l : LogLevel) (m : String) (u : W) → docs (logger l m u) ≡ docs u)
      → (docs (reserve_route request w).1 ≡ docs w) × (docs (release_route request w).1 ≡ docs w)
  unfolding reserve_route release_route async_handler
  stock_routes-refuse docs request w other limited logs = (
    answered-refuses docs request w other limited logs _,
    answered-refuses docs request w other limited logs _,
  )
