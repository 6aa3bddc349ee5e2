-- ===== src/Product/ReadOnly.antt =====
-- What a request without the internal key can do to the products, whatever its method and path.
use ecommerce_microservice.Prelude.{
  ℕ, String, Bool, ◌≡◌, ◌≢◌, ap, sym, ◌∙◌, Option, some, List, All,
}
use ecommerce_microservice.Shared.Json.{Json}
use ecommerce_microservice.Shared.Action.{Outcome, Action, ◌>>=◌}
use ecommerce_microservice.Shared.Logger.{Logger}
use ecommerce_microservice.Shared.Headers.{
  Headers, header, correlation_id_header, internal_api_key_header,
}
use ecommerce_microservice.Shared.ErrorHandler.{Reply}
use ecommerce_microservice.Shared.Metrics.{Registry, Labels, metrics_handler}
use ecommerce_microservice.Shared.Middleware.{Gate, validate_request}
use ecommerce_microservice.Shared.Leaves.{
  Leaves, LeavesLogging, Leaves-bind, validate_request-Leaves, guarded-Leaves, async_handler-Leaves,
}
use ecommerce_microservice.Shared.App.{HttpCall, Received}
use ecommerce_microservice.Shared.App.Quiet.{
  LeavesFor, among-leaves, with_metrics-leaves, create_app-leaves,
}
use ecommerce_microservice.Mongo.{Collection, CollectionLaws}
use ecommerce_microservice.Product.Routes
use ecommerce_microservice.Product.Model.{Product, same_product_id}
use ecommerce_microservice.Product.Repository.{
  ProductRepository, PaginatedResult, mongo_product_repository,
}
use ecommerce_microservice.Product.Reads.{get_product-Leaves, list_products_page-Leaves}
use ecommerce_microservice.Product.Routes.{
  ProductSchemas, Request, ListQuery, get_product_route, list_products_route, stock_routes-refuse,
}
use ecommerce_microservice.Product.Module.{create_product_module}
use ecommerce_microservice.Product.App.{
  ProductContent, one_product, product_page, create_routes, create_app, request_of,
}

module _ {W : Type 0} (products : Collection W Product) {docs : W → List Product}
    (laws : CollectionLaws products same_product_id docs) where
  module _ (logger : Logger W) (schemas : ProductSchemas) (internal_api_key : String)
      (read_limiter mutation_limiter : Gate W) (logs : LeavesLogging docs logger)
      (reads : Leaves docs read_limiter) (writes : Leaves docs mutation_limiter) where
    abbrev repo : ProductRepository W
    repo = mongo_product_repository products

    get_product_route-leaves :
        (request : Request) (w : W)
        → docs
            (get_product_route logger schemas internal_api_key read_limiter mutation_limiter repo
              request w).1
          ≡ docs w
    unfolding get_product_route
    get_product_route-leaves request =
        let handler : Action W (Reply Product) =
          validate_request schemas.get_product_params request.params >>= Routes.get_product repo in
        async_handler-Leaves docs logger (header correlation_id_header request.headers) _ logs (
          guarded-Leaves docs read_limiter handler reads (
            Leaves-bind docs (validate_request schemas.get_product_params request.params)
              (Routes.get_product repo)
              (validate_request-Leaves docs schemas.get_product_params request.params)
              (get_product-Leaves products laws)))

    list_products_route-leaves :
        (request : Request) (w : W)
        → docs
            (list_products_route logger schemas internal_api_key read_limiter mutation_limiter repo
              request w).1
          ≡ docs w
    unfolding list_products_route
    list_products_route-leaves request =
        let handler : Action W (Reply (PaginatedResult Product)) =
          validate_request schemas.list_products_query request.query
          >>= Routes.list_products_page repo in
        async_handler-Leaves docs logger (header correlation_id_header request.headers) _ logs (
          guarded-Leaves docs read_limiter handler reads (
            Leaves-bind docs (validate_request schemas.list_products_query request.query)
              (Routes.list_products_page repo)
              (validate_request-Leaves docs schemas.list_products_query request.query)
              (list_products_page-Leaves products laws)))

    module _ (matches : String → String → HttpCall → Option Json) (helmet : Headers → Headers)
        (json : String → Outcome Json) (uuid : W → String × W) (now : W → ℕ × W)
        (registry : Registry W) (is_database_connected : W → Bool)
        (draws : (w : W) → docs (uuid w).1 ≡ docs w) (ticks : (w : W) → docs (now w).1 ≡ docs w)
        (counts : (l : Labels) (w : W) → docs (registry.inc l w) ≡ docs w)
        (renders : Leaves docs registry.metrics) where
      routes-leave :
          (headers : Headers)
          → header internal_api_key_header headers ≢ some internal_api_key
          → All (LeavesFor docs headers) (
              create_routes logger schemas internal_api_key read_limiter mutation_limiter products
                registry is_database_connected now)
      unfolding create_routes create_product_module metrics_handler
      routes-leave headers keyless =
          let refused = λ (request : Request) (w : W) (same : request.headers ≡ headers).
            stock_routes-refuse logger schemas internal_api_key read_limiter mutation_limiter repo
              docs request w (λ e. keyless (ap (header internal_api_key_header) (sym same) ∙ e))
              writes logs in
          let told = λ (q : Received) (w : W) (same : q.headers ≡ headers).
            with_metrics-leaves ProductContent docs (registry.metrics w) ∙ renders w in
          let listed = λ (q : Received) (w : W) (same : q.headers ≡ headers).
            among-leaves docs product_page _ ∙ list_products_route-leaves (request_of q) w in
          let shown = λ (q : Received) (w : W) (same : q.headers ≡ headers).
            among-leaves docs one_product _ ∙ get_product_route-leaves (request_of q) w in
          let kept = λ (q : Received) (w : W) (same : q.headers ≡ headers).
            among-leaves docs one_product _ ∙ (refused (request_of q) w same).0 in
          let held = λ (q : Received) (w : W) (same : q.headers ≡ headers).
            among-leaves docs one_product _ ∙ (refused (request_of q) w same).1 in
          (λ q w same. ticks w, (told, (listed, (shown, (kept, (held, tt))))))

      -- A request without the internal key leaves the products as they are, whatever its method, path,
      -- headers and body, however Express matches it and whether it is answered or fails: the limiters,
      -- the log, the clock, the ids and the metrics write no products.
      pub create_app-reads_only :
          (r : HttpCall) (w : W)
          → header internal_api_key_header r.headers ≢ some internal_api_key
          → docs
              (create_app logger schemas internal_api_key read_limiter mutation_limiter products
                registry is_database_connected now matches helmet json uuid r w).1
            ≡ docs w
      unfolding create_app
      create_app-reads_only r w keyless =
          create_app-leaves docs matches helmet json uuid registry logger logs draws counts
            (create_routes logger schemas internal_api_key read_limiter mutation_limiter products
              registry is_database_connected now)
            r w (routes-leave r.headers keyless)
