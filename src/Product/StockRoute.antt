-- ===== src/Product/StockRoute.antt =====
-- PATCH /products/:productId/reserve, as another service calls it.
use ecommerce_microservice.Prelude.{
  ℕ, String, ◌≡◌, refl, ◌∙◌, true, Option, some, List, [], update_first,
}
use ecommerce_microservice.Shared.Action.{Outcome, ok, throw, Action, bind, pure, ◌>>=◌}
use ecommerce_microservice.Shared.Logger.{Logger, LogLevel}
use ecommerce_microservice.Shared.Headers.{header, truthy, correlation_id_header}
use ecommerce_microservice.Shared.ErrorHandler.{
  Reply, success, error_handler, async_handler, log_error, settle,
}
use ecommerce_microservice.Shared.HttpClient.{HttpClient, build_headers}
use ecommerce_microservice.Shared.Middleware.{Gate, next, valid, validate_request}
use ecommerce_microservice.Shared.Leaves.{log_error-Leaves}
use ecommerce_microservice.Shared.Middleware.Laws.{internal_auth-accepts_client}
use ecommerce_microservice.Mongo.{Collection, CollectionLaws, Available}
use ecommerce_microservice.Product.Model.{Product, same_product_id}
use ecommerce_microservice.Product.Repository.{
  ProductRepository, has_stock, take_stock, mongo_product_repository,
}
use ecommerce_microservice.Product.Routes
use ecommerce_microservice.Product.Routes.{ProductSchemas, Request}
use ecommerce_microservice.Product.Stock.{reserve_spec, reserve_stock-refines}

-- The reply that a request gets for how its handler ended.
abbrev pub reply_of : Option String → Outcome Product → Reply Product
reply_of correlation_id (ok p) = success 200 p
reply_of correlation_id (throw e) = error_handler correlation_id e

-- The handler behind the middlewares.
abbrev answer_reservation :
    {W : Type 0} → ProductRepository W → ProductSchemas → Request → Action W (Reply Product)
answer_reservation repo schemas request = do
  product_id ← validate_request schemas.get_product_params request.params
  quantity ← validate_request schemas.stock_mutation request.body
  Routes.reserve_stock repo product_id quantity

-- That the limiter lets a request pass in a world, and writes no products.
abbrev pub PassesAt : {W : Type 0} → Gate W → (W → List Product) → W → Type 0
PassesAt {W} gate docs w = (u : W) × (gate w ≡ (ok next, u)) × (docs u ≡ docs w)

-- That it lets every request pass.
pub record LetsPass {W : Type 0} (gate : Gate W) (docs : W → List Product) : Type 0 where
  pub passes : (w : W) → PassesAt gate docs w

module _ {W : Type 0} (products : Collection W Product) {docs : W → List Product}
    (laws : CollectionLaws products same_product_id docs) (up : Available products)
    (logger : Logger W)
    (logs : (l : LogLevel) (m : String) (u : W) → docs (logger l m u) ≡ docs u) where
  abbrev repo : ProductRepository W
  repo = mongo_product_repository products

  settle-replies :
      (correlation_id : Option String) (o : Outcome Product) (v : W)
      → (w' : W) × (settle logger correlation_id (bind (o, v) (λ p. pure (success 200 p)))
          ≡ (reply_of correlation_id o, w'))
        × (docs w' ≡ docs v)
  settle-replies correlation_id (ok p) v = (v, refl, refl)
  settle-replies correlation_id (throw e) v = (
    log_error logger correlation_id e v,
    refl,
    log_error-Leaves docs logger logs correlation_id e v,
  )

  -- A request with the headers of a client that holds the key, which the schemas accept, is answered
  -- as the specification of a reservation says, and leaves the products that it says.
  pub reserve_route-replies :
      (schemas : ProductSchemas) (key : String) (read_limiter mutation_limiter : Gate W)
      (http : HttpClient W) (c : Option String) (request : Request) (id : String) (q : ℕ) (w : W)
      → PassesAt mutation_limiter docs w
      → http.internal_api_key ≡ some key
      → truthy (some key) ≡ true
      → request.headers ≡ build_headers http c []
      → schemas.get_product_params request.params ≡ valid id
      → schemas.stock_mutation request.body ≡ valid q
      → (w' : W) × (Routes.reserve_route logger schemas key read_limiter mutation_limiter repo
            request w
          ≡ (
            reply_of
                (header correlation_id_header (build_headers http c []))
                (reserve_spec id q (docs w)),
            w',
          ))
        × (docs w' ≡ update_first (has_stock id q) (take_stock q) (docs w))
  unfolding Routes.reserve_route Routes.reserve_stock async_handler validate_request
  reserve_route-replies schemas key read_limiter mutation_limiter http c request id q w open_gate
        keyed real headed named given =
      let (u, passed, same) = open_gate in
      let passes =
        internal_auth-accepts_client (answer_reservation repo schemas request) http key c [] u keyed
          real in
      let (v, served, changed) = reserve_stock-refines laws up id q u in
      let corr = header correlation_id_header (build_headers http c []) in
      let (w', settled, kept) = settle-replies corr (reserve_spec id q (docs u)) v in
      (
        w',
        rw (passed, headed, passes, named, given, served, ← same) settled,
        kept ∙ changed ∙ rw same,
      )
