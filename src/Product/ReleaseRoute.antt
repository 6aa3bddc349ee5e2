-- ===== src/Product/ReleaseRoute.antt =====
-- PATCH /products/:productId/release, as another service calls it for a product that is there.
use ecommerce_microservice.Prelude.{
  ℕ, String, ◌≡◌, refl, ap, ◌∙◌, true, Option, some, List, [], find, update_first,
}
use ecommerce_microservice.Shared.Action.{ok, Action, ◌>>=◌}
use ecommerce_microservice.Shared.Logger.{Logger}
use ecommerce_microservice.Shared.Headers.{truthy}
use ecommerce_microservice.Shared.ErrorHandler.{Reply, success, async_handler}
use ecommerce_microservice.Shared.HttpClient.{HttpClient, build_headers}
use ecommerce_microservice.Shared.Middleware.{Gate, valid, validate_request}
use ecommerce_microservice.Shared.Middleware.Laws.{internal_auth-accepts_client}
use ecommerce_microservice.Mongo.{Collection, CollectionLaws, Available, map_option}
use ecommerce_microservice.Product.Model.{Product, same_product_id}
use ecommerce_microservice.Product.Repository
use ecommerce_microservice.Product.Repository.{
  ProductRepository, has_id, put_stock, to_attributes?, mongo_product_repository,
}
use ecommerce_microservice.Product.Service
use ecommerce_microservice.Product.Routes
use ecommerce_microservice.Product.Routes.{ProductSchemas, Request}
use ecommerce_microservice.Product.StockRoute.{LetsPass}

module _ {W : Type 0} (products : Collection W Product) {docs : W → List Product}
    (laws : CollectionLaws products same_product_id docs) (up : Available products) where
  abbrev repo : ProductRepository W
  repo = mongo_product_repository products

  -- The handler behind the middlewares.
  abbrev answer_release : ProductSchemas → Request → Action W (Reply Product)
  answer_release schemas request = do
    product_id ← validate_request schemas.get_product_params request.params
    quantity ← validate_request schemas.stock_mutation request.body
    Routes.release_stock repo product_id quantity

  release_given :
      (id : String) (q : ℕ) (p : Product) (w u : W)
      → products.find_one_and_update (has_id id) (put_stock q) w ≡ (ok (some p), u)
      → Routes.release_stock repo id q w ≡ (ok (success 200 p), u)
  unfolding Routes.release_stock Service.release_stock mongo_product_repository
      Repository.release_stock
  release_given id q p w u updated = rw updated

  -- With the database up, a release of a product that is there puts the quantity back.
  release_stock-known :
      (id : String) (q : ℕ) (w : W) (d : Product)
      → find (has_id id) (docs w) ≡ some d
      → (w' : W) × (Routes.release_stock repo id q w ≡ (ok (success 200 (put_stock q d)), w'))
        × (docs w' ≡ update_first (has_id id) (put_stock q) (docs w))
  release_stock-known id q w d there =
      let (r, u, updated) = up.update_answers (has_id id) (put_stock q) w in
      let (found, changed) = laws.update_lem _ _ w u r updated in
      (
        u,
        release_given id q (put_stock q d) w u
            (updated ∙ ap (λ o. (ok o, u)) (found ∙ ap (map_option (put_stock q)) there)),
        changed,
      )

  pub release_route-replies :
      (logger : Logger W) (schemas : ProductSchemas) (key : String)
      (read_limiter mutation_limiter : Gate W)
      → LetsPass mutation_limiter docs
      → (http : HttpClient W) (c : Option String) (request : Request) (id : String) (q : ℕ) (w : W)
        (d : Product)
      → http.internal_api_key ≡ some key
      → truthy (some key) ≡ true
      → request.headers ≡ build_headers http c []
      → schemas.get_product_params request.params ≡ valid id
      → schemas.stock_mutation request.body ≡ valid q
      → find (has_id id) (docs w) ≡ some d
      → (w' : W) × (Routes.release_route logger schemas key read_limiter mutation_limiter repo
            request w
          ≡ (success 200 (put_stock q d), w'))
        × (docs w' ≡ update_first (has_id id) (put_stock q) (docs w))
  unfolding Routes.release_route async_handler validate_request
  release_route-replies logger schemas key read_limiter mutation_limiter open_gate http c request id
        q w d keyed real headed named given there =
      let (u, passed, same) = open_gate.passes w in
      let passes =
        internal_auth-accepts_client (answer_release schemas request) http key c [] u keyed real in
      let (w', released, changed) =
        release_stock-known id q u d (ap (find (has_id id)) same ∙ there) in
      (
        w',
        rw (passed, headed, passes, named, given, released) refl,
        changed ∙ ap (update_first (has_id id) (put_stock q)) same,
      )
