-- ===== src/Order/RemoteStock.antt =====
-- A reservation of the order service against the product service, over HTTP.
use ecommerce_microservice.Prelude.{
  ℕ, String, ◌≡◌, refl, ap, ◌∙◌, true, Option, none, some, List, [], find, arith, str_eq,
  if◌then◌else◌,
}
use ecommerce_microservice.Prelude.Show.{show}
use ecommerce_microservice.Shared.Errors.{ConflictError, UpstreamServiceError, ◌++ˢ◌}
use ecommerce_microservice.Shared.Action.{Outcome, ok, throw, Action}
use ecommerce_microservice.Shared.Logger.{Logger, LogLevel}
use ecommerce_microservice.Shared.Headers.{header, truthy, correlation_id_header}
use ecommerce_microservice.Shared.Dtos.{ApiSuccessResponse}
use ecommerce_microservice.Shared.ErrorHandler.{Reply, ErrorResponseBody, error_handler, error_json}
use ecommerce_microservice.Shared.HttpClient.{
  HttpClient, HttpRequest, Transport, build_headers, execute_with_retry, call,
}
use ecommerce_microservice.Shared.HttpClient.Retry.{
  start, execute_with_retry-ok, execute_with_retry-client_error,
}
use ecommerce_microservice.Shared.Network.{delivered}
use ecommerce_microservice.Shared.Middleware.{Gate, valid}
use ecommerce_microservice.Mongo.{Collection, CollectionLaws, Available}
use ecommerce_microservice.Product.Model.{Product, same_product_id}
use ecommerce_microservice.Product.Repository.{mongo_product_repository}
use ecommerce_microservice.Product.Routes
use ecommerce_microservice.Product.Routes.{ProductSchemas}
use ecommerce_microservice.Product.Stock.{reserve_answer, suffices, is_called, reserved_rows}
use ecommerce_microservice.Product.StockRoute.{PassesAt, reply_of, reserve_route-replies}
use ecommerce_microservice.Order.Clients
use ecommerce_microservice.Order.Clients.{StockMutation}
use ecommerce_microservice.Order.Degradation.{reserve_request}

-- The body of the product service's 404.
abbrev pub missing_body : String → Option String → ErrorResponseBody
missing_body id correlation_id = record {
  code = "NOT_FOUND";
  message =
      if str_eq id ""
      then "Product was not found"
      else "Product with id '" ++ˢ id ++ˢ "' was not found";
  details = none;
  correlation_id = correlation_id;
}

-- What the order service gets, by whether a product has the stock and whether one has the id.
abbrev pub answer_remote :
    String → Option String → String → Option Product → Option Product → Outcome (Unit {0})
answer_remote service_name correlation_id id (some d) existing = ok tt
answer_remote service_name correlation_id id none (some d) =
    throw (ConflictError ("Insufficient stock for product " ++ˢ id))
answer_remote service_name correlation_id id none none = throw (
    UpstreamServiceError service_name "Request failed with status code 404"
      (some (error_json (missing_body id correlation_id))))

abbrev pub remote_spec : String → Option String → String → ℕ → List Product → Outcome (Unit {0})
remote_spec service_name correlation_id id q ds =
    answer_remote service_name correlation_id id (find (suffices id q) ds) (find (is_called id) ds)

-- The breaker is closed, and a request to the path of this product, which ends in `suffix`, reaches the
-- route with its headers, the id and the quantity.
pub record StockNetwork {W : Type 0} (t : Transport W StockMutation (ApiSuccessResponse Product))
    (route : Routes.Request → W → Reply Product × W) (schemas : ProductSchemas) (suffix id : String)
    (q : ℕ) : Type 0 where
  pub arrives : HttpRequest StockMutation → Routes.Request
  pub closed : (m : Action W (ApiSuccessResponse Product)) (w : W) → t.fire m w ≡ m w
  pub sends :
      (r : HttpRequest StockMutation) (w : W)
      → r.path ≡ "/products/" ++ˢ id ++ˢ suffix
      → t.send r w ≡ delivered (route (arrives r) w)
  pub keeps_headers : (r : HttpRequest StockMutation) → (arrives r).headers ≡ r.headers
  pub reads_id :
      (r : HttpRequest StockMutation)
      → r.path ≡ "/products/" ++ˢ id ++ˢ suffix
      → schemas.get_product_params (arrives r).params ≡ valid id
  pub reads_quantity :
      (r : HttpRequest StockMutation)
      → r.body.quantity ≡ q
      → schemas.stock_mutation (arrives r).body ≡ valid q

module _ {W : Type 0} (http : HttpClient W)
    (t : Transport W StockMutation (ApiSuccessResponse Product))
    (closed : (m : Action W (ApiSuccessResponse Product)) (w : W) → t.fire m w ≡ m w) (id : String)
    (q : ℕ) (c : Option String) where
  abbrev attempt : Action W (ApiSuccessResponse Product)
  attempt = t.send (reserve_request http id q c)

  -- What the client makes of the reply to its one attempt.
  client-answers :
      (seen : Option String) (granted existing : Option Product) (w w' : W)
      → attempt w ≡ delivered (reply_of seen (reserve_answer id q granted existing), w')
      → Clients.reserve_stock http t id q c w
        ≡ (answer_remote http.service_name seen id granted existing, w')
  unfolding Clients.reserve_stock call error_handler show
  client-answers seen (some d) existing w w' sent =
      let ended = execute_with_retry-ok http attempt 0 _ start (omega arith) sent in
      rw (closed (execute_with_retry http attempt) w, ended)
  client-answers seen none (some d) w w' sent =
      let ended = execute_with_retry-client_error http attempt _ sent refl in
      rw (closed (execute_with_retry http attempt) w, ended)
  client-answers seen none none w w' sent =
      let ended = execute_with_retry-client_error http attempt _ sent refl in
      rw (closed (execute_with_retry http attempt) w, ended)

module _ {W : Type 0} (products : Collection W Product) (logger : Logger W)
    (schemas : ProductSchemas) (key : String) (read_limiter mutation_limiter : Gate W) where
  abbrev pub reserve_route_of : Routes.Request → W → Reply Product × W
  reserve_route_of =
      Routes.reserve_route logger schemas key read_limiter mutation_limiter
        (mongo_product_repository products)

module _ {W : Type 0} (products : Collection W Product) {docs : W → List Product}
    (laws : CollectionLaws products same_product_id docs) (up : Available products)
    (logger : Logger W) (logs : (l : LogLevel) (m : String) (u : W) → docs (logger l m u) ≡ docs u)
    (schemas : ProductSchemas) (key : String) (read_limiter mutation_limiter : Gate W) where
  -- On every branch: a reservation that the order service asks for over HTTP succeeds exactly when a
  -- product with the id has the quantity in stock, and takes it once; otherwise it throws a conflict if
  -- there is such a product, and an upstream error with the 404 if there is none, and no product
  -- changes. Both services hold the same key, the database is up, the breaker is closed, and the
  -- request reaches the route, whose limiter lets it pass and whose schemas accept the id and quantity.
  pub reserve_stock-refines_remote :
      (http : HttpClient W) (t : Transport W StockMutation (ApiSuccessResponse Product))
      (id : String) (q : ℕ) (c : Option String)
      → http.internal_api_key ≡ some key
      → truthy (some key) ≡ true
      → StockNetwork t
          (reserve_route_of products logger schemas key read_limiter mutation_limiter)
          schemas
          "/reserve"
          id
          q
      → (w : W) → PassesAt mutation_limiter docs w
      → (w' : W) × (Clients.reserve_stock http t id q c w ≡ (
        remote_spec http.service_name
            (header correlation_id_header (build_headers http c []))
            id
            q
            (docs w),
        w',
      ))
        × (docs w' ≡ reserved_rows id q (docs w))
  reserve_stock-refines_remote http t id q c keyed real network w open_gate =
      let r = reserve_request http id q c in
      let (w', replied, changed) =
        reserve_route-replies products laws up logger logs schemas key read_limiter mutation_limiter
          http c (network.arrives r) id q w open_gate keyed real (network.keeps_headers r)
          (network.reads_id r refl) (network.reads_quantity r refl) in
      (
        w',
        client-answers http t network.closed id q c
            (header correlation_id_header (build_headers http c [])) (find (suffices id q) (docs w))
            (find (is_called id) (docs w)) w w' (network.sends r w refl ∙ ap delivered replied),
        changed,
      )
