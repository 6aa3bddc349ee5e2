-- ===== src/Product/StockQuiet.antt =====
-- What the two stock routes leave alone: whatever the collection's calls, the limiter and the log do.
use ecommerce_microservice.Prelude.{
  ℕ, String, Bool, ◌≡◌, refl, inl, inr, Bool-cases, Option, none, some,
}
use ecommerce_microservice.Shared.Action.{Action, pure, ◌>>=◌}
use ecommerce_microservice.Shared.Logger.{Logger}
use ecommerce_microservice.Shared.Headers.{
  Headers, header, internal_api_key_header, correlation_id_header,
}
use ecommerce_microservice.Shared.ErrorHandler.{Reply, success}
use ecommerce_microservice.Shared.Middleware.{
  Gate, guarded, has_key, internal_auth, validate_request,
}
use ecommerce_microservice.Shared.Leaves.{
  Leaves, LeavesLogging, Leaves-bind, validate_request-Leaves, guarded-Leaves, async_handler-Leaves,
}
use ecommerce_microservice.Mongo.{Collection}
use ecommerce_microservice.Product.Repository
use ecommerce_microservice.Product.Service
use ecommerce_microservice.Product.Routes
use ecommerce_microservice.Product.Model.{Product}
use ecommerce_microservice.Product.Repository.{
  ProductRepository, has_id, has_stock, take_stock, put_stock, mongo_product_repository,
}
use ecommerce_microservice.Product.Service.{or_not_found, refuse_reservation, explain_refusal}
use ecommerce_microservice.Product.Reads.{or_not_found-Leaves}
use ecommerce_microservice.Product.Routes.{ProductSchemas, Request}

internal_auth-Leaves :
    {W X : Type 0} (view : W → X) (key : String) (headers : Headers)
    → Leaves view (internal_auth key headers)
unfolding internal_auth
internal_auth-Leaves view key headers w =
    elim (Bool-cases (has_key key (header internal_api_key_header headers))) [
      | inl same ↦ rw same refl
      | inr other ↦ rw other refl
    ]

refuse_reservation-Leaves :
    {W X : Type 0} (view : W → X) (id : String) (q : ℕ) (o : Option Product)
    → Leaves view (refuse_reservation id q o)
refuse_reservation-Leaves view id q none w = refl
refuse_reservation-Leaves view id q (some p) w = refl

module _ {W X : Type 0} (view : W → X) (products : Collection W Product)
    (finds : (f : Product → Bool) → Leaves view (products.find_one f))
    (updates : (f : Product → Bool) (u : Product → Product)
      → Leaves view (products.find_one_and_update f u)) where
  abbrev repo : ProductRepository W
  repo = mongo_product_repository products

  find-Leaves : (id : String) → Leaves view (Repository.find_by_product_id products id)
  unfolding Repository.find_by_product_id
  find-Leaves id =
      Leaves-bind view (products.find_one (has_id id)) _ (finds (has_id id)) (λ doc w. refl)

  explain_refusal-Leaves :
      (id : String) (q : ℕ) (o : Option Product) → Leaves view (explain_refusal repo id q o)
  unfolding mongo_product_repository
  explain_refusal-Leaves id q (some p) w = refl
  explain_refusal-Leaves id q none w =
      Leaves-bind view (Repository.find_by_product_id products id) (refuse_reservation id q)
        (find-Leaves id) (refuse_reservation-Leaves view id q) w

  reserve-Leaves : (id : String) (q : ℕ) → Leaves view (Repository.reserve_stock products id q)
  unfolding Repository.reserve_stock
  reserve-Leaves id q =
      Leaves-bind view (products.find_one_and_update (has_stock id q) (take_stock q)) _
        (updates (has_stock id q) (take_stock q)) (λ doc w. refl)

  release-Leaves : (id : String) (q : ℕ) → Leaves view (Repository.release_stock products id q)
  unfolding Repository.release_stock
  release-Leaves id q =
      Leaves-bind view (products.find_one_and_update (has_id id) (put_stock q)) _
        (updates (has_id id) (put_stock q)) (λ doc w. refl)

  service_reserve-Leaves : (id : String) (q : ℕ) → Leaves view (Service.reserve_stock repo id q)
  unfolding Service.reserve_stock mongo_product_repository
  service_reserve-Leaves id q =
      Leaves-bind view (Repository.reserve_stock products id q) (explain_refusal repo id q)
        (reserve-Leaves id q) (explain_refusal-Leaves id q)

  service_release-Leaves : (id : String) (q : ℕ) → Leaves view (Service.release_stock repo id q)
  unfolding Service.release_stock mongo_product_repository
  service_release-Leaves id q =
      Leaves-bind view (Repository.release_stock products id q) (or_not_found id)
        (release-Leaves id q) (or_not_found-Leaves view id)

  -- A route's handler behind its middlewares.
  module _ (logger : Logger W) (schemas : ProductSchemas) (key : String)
      (read_limiter mutation_limiter : Gate W) (logs : LeavesLogging view logger)
      (limits : Leaves view mutation_limiter) where
    mutation-Leaves :
        (m : String → ℕ → Action W (Reply Product))
        → ((id : String) (q : ℕ) → Leaves view (m id q))
        → (request : Request)
        → Leaves view (
            guarded mutation_limiter (
              guarded (internal_auth key request.headers) (
                validate_request schemas.get_product_params request.params >>= λ id.
                validate_request schemas.stock_mutation request.body >>= m id)))
    mutation-Leaves m leaves request = guarded-Leaves view mutation_limiter _ limits (
        guarded-Leaves view (internal_auth key request.headers) _
          (internal_auth-Leaves view key request.headers)
          (Leaves-bind view (validate_request schemas.get_product_params request.params)
            (λ id. validate_request schemas.stock_mutation request.body >>= m id)
            (validate_request-Leaves view schemas.get_product_params request.params)
            (λ id.
              Leaves-bind view (validate_request schemas.stock_mutation request.body) (m id)
                (validate_request-Leaves view schemas.stock_mutation request.body) (leaves id))))

    pub reserve_route-leaves :
        (request : Request) (w : W)
        → view
            (Routes.reserve_route logger schemas key read_limiter mutation_limiter repo request w).1
          ≡ view w
    unfolding Routes.reserve_route Routes.reserve_stock
    reserve_route-leaves request =
        async_handler-Leaves view logger (header correlation_id_header request.headers) _ logs (
          mutation-Leaves (λ id q. Service.reserve_stock repo id q >>= λ p. pure (success 200 p))
            (λ id q.
              Leaves-bind view (Service.reserve_stock repo id q) _ (service_reserve-Leaves id q)
                (λ p w. refl))
            request)

    pub release_route-leaves :
        (request : Request) (w : W)
        → view
            (Routes.release_route logger schemas key read_limiter mutation_limiter repo request w).1
          ≡ view w
    unfolding Routes.release_route Routes.release_stock
    release_route-leaves request =
        async_handler-Leaves view logger (header correlation_id_header request.headers) _ logs (
          mutation-Leaves (λ id q. Service.release_stock repo id q >>= λ p. pure (success 200 p))
            (λ id q.
              Leaves-bind view (Service.release_stock repo id q) _ (service_release-Leaves id q)
                (λ p w. refl))
            request)
