-- ===== src/Order/RemoteTotals.antt =====
-- What reservations and releases that the order service asks for over HTTP do to the stock of the product
-- service.
use ecommerce_microservice.Prelude.{
  ℕ, String, ◌≡◌, refl, ap, ◌∙◌, inl, inr, true, Bool-cases, Option, some, Option-cases, List, [],
  ◌∷◌, find, update_first, update_first-miss, arith,
}
use ecommerce_microservice.Prelude.Int.{ℤ, pos, ◌+ℤ◌, ◌-ℤ◌, int_laws}
use ecommerce_microservice.Shared.Errors.{◌++ˢ◌}
use ecommerce_microservice.Shared.Action.{ok, Action}
use ecommerce_microservice.Shared.Logger.{Logger, LogLevel}
use ecommerce_microservice.Shared.Headers.{truthy}
use ecommerce_microservice.Shared.Dtos.{ApiSuccessResponse}
use ecommerce_microservice.Shared.ErrorHandler.{Reply}
use ecommerce_microservice.Shared.Network.{delivered}
use ecommerce_microservice.Shared.HttpClient.{
  HttpClient, HttpRequest, Transport, Method, build_headers, call, execute_with_retry,
}
use ecommerce_microservice.Shared.HttpClient.Retry.{start, execute_with_retry-ok}
use ecommerce_microservice.Shared.Middleware.{Gate}
use ecommerce_microservice.Mongo.{Collection, CollectionLaws, Available}
use ecommerce_microservice.Product.Routes
use ecommerce_microservice.Product.Model.{Product, same_product_id}
use ecommerce_microservice.Product.Repository.{
  has_id, has_stock, take_stock, mongo_product_repository,
}
use ecommerce_microservice.Product.Routes.{ProductSchemas}
use ecommerce_microservice.Product.Sharing.{total_stock, total-take, total-put}
use ecommerce_microservice.Product.StockRoute.{LetsPass}
use ecommerce_microservice.Product.ReleaseRoute.{release_route-replies}
use ecommerce_microservice.Order.Clients
use ecommerce_microservice.Order.Clients.{StockMutation}
use ecommerce_microservice.Order.Dependencies.{order_quantity}
use ecommerce_microservice.Order.Ledger.{after_reserve, IfOk}
use ecommerce_microservice.Order.RemoteStock.{
  StockNetwork, reserve_route_of, reserve_stock-refines_remote,
}

-- The request that `releaseStock` sends.
abbrev pub release_request :
    {W : Type 0} → HttpClient W → String → ℕ → Option String → HttpRequest StockMutation
release_request http product_id quantity correlation_id = record {
  method = Method.patch;
  path = "/products/" ++ˢ product_id ++ˢ "/release";
  body = record { quantity = quantity };
  headers = build_headers http correlation_id [];
}

abbrev pub release_route_of :
    {W : Type 0}
    → Collection W Product
    → Logger W
    → ProductSchemas
    → String
    → Gate W
    → Gate W
    → Routes.Request
    → W
    → Reply Product × W
release_route_of products logger schemas key read_limiter mutation_limiter =
    Routes.release_route logger schemas key read_limiter mutation_limiter
      (mongo_product_repository products)

-- A product of the id is there.
abbrev pub KnownIn : {W : Type 0} → (W → List Product) → String → W → Type 0
KnownIn docs id w = (d : Product) × (find (has_id id) (docs w) ≡ some d)

add_sub : (a b : ℤ) → a ≡ a +ℤ b -ℤ b
add_sub a b = omega int_laws

minus_of : (a b c : ℤ) → a +ℤ b ≡ c → a ≡ c -ℤ b
minus_of a b c h = add_sub a b ∙ ap (λ (z : ℤ). z -ℤ b) h

-- Taking stock keeps the ids.
find_id-taken :
    (id : String) (q : ℕ) (ds : List Product) (d : Product)
    → find (has_stock id q) ds ≡ some d
    → (e : Product) × (find (has_id id) (update_first (has_stock id q) (take_stock q) ds) ≡ some e)
find_id-taken id q [] d h = cc
find_id-taken id q (x ∷ ds) d h = elim (Bool-cases (has_stock id q x)) [
  | inl hit ↦ (take_stock q x, ground arith)
  | inr miss ↦ elim (Bool-cases (has_id id x)) [
    | inl named ↦ (x, ground arith)
    | inr other ↦ let (e, found) = find_id-taken id q ds d (ground arith) in (e, ground arith)
  ]
]

module _ {W : Type 0} (http : HttpClient W)
    (t : Transport W StockMutation (ApiSuccessResponse Product)) where
  release_stock-delivered :
      (id : String) (q : ℕ) (c : Option String) (a : ApiSuccessResponse Product) (w w' : W)
      → ((m : Action W (ApiSuccessResponse Product)) (u : W) → t.fire m u ≡ m u)
      → t.send (release_request http id q c) w ≡ (ok a, w')
      → Clients.release_stock http t id q c w ≡ (ok tt, w')
  unfolding Clients.release_stock call
  release_stock-delivered id q c a w w' closed sent =
      let attempt = t.send (release_request http id q c) in
      let ended = execute_with_retry-ok http attempt 0 a start (omega arith) sent in
      rw (closed (execute_with_retry http attempt) w, ended)

-- The two services in one world: the collections of products and of orders, the product service's
-- surroundings, and the order service's client with the network between them.
module _ {W : Type 0} (products : Collection W Product) {docs : W → List Product}
    (laws : CollectionLaws products same_product_id docs) (up : Available products)
    (logger : Logger W) (logs : (l : LogLevel) (m : String) (u : W) → docs (logger l m u) ≡ docs u)
    (schemas : ProductSchemas) (key : String) (read_limiter mutation_limiter : Gate W)
    (open_gate : LetsPass mutation_limiter docs) (http : HttpClient W)
    (t : Transport W StockMutation (ApiSuccessResponse Product))
    (keyed : http.internal_api_key ≡ some key) (real : truthy (some key) ≡ true) (id : String)
    (reserving : StockNetwork t
      (reserve_route_of products logger schemas key read_limiter mutation_limiter)
      schemas
      "/reserve"
      id
      order_quantity)
    (releasing : StockNetwork t
      (release_route_of products logger schemas key read_limiter mutation_limiter)
      schemas
      "/release"
      id
      order_quantity) where
  reserve-total :
      (c : Option String) (w : W)
      → let (r, w') = Clients.reserve_stock http t id order_quantity c w in
        (total_stock (docs w')
          ≡ (after_reserve r (record { stock = total_stock (docs w); orders = 0 })).stock)
        × IfOk r (KnownIn docs id w')
  reserve-total c w =
      let (w', answered, changed) =
        reserve_stock-refines_remote products laws up logger logs schemas key read_limiter
          mutation_limiter http t id order_quantity c keyed real reserving w (open_gate.passes w) in
      elim (Option-cases (find (has_stock id order_quantity) (docs w))) [
        | inr (d, there) ↦
            rw (answered, there, changed)
              (
                minus_of _ (pos order_quantity) (total_stock (docs w))
                    (total-take (has_stock id order_quantity) order_quantity (docs w) d there),
                find_id-taken id order_quantity (docs w) d there,
              )
        | inl missing ↦ elim (Option-cases (find (has_id id) (docs w))) [
          | inr (d, short) ↦
              rw
                (
                  answered,
                  missing,
                  short,
                  changed,
                  update_first-miss (has_stock id order_quantity) (take_stock order_quantity)
                      (docs w) missing,
                )
                (refl, tt)
          | inl unknown ↦
              rw
                (
                  answered,
                  missing,
                  unknown,
                  changed,
                  update_first-miss (has_stock id order_quantity) (take_stock order_quantity)
                      (docs w) missing,
                )
                (refl, tt)
        ]
      ]

  release-total :
      (c : Option String) (w : W)
      → KnownIn docs id w
      → (w' : W) × (Clients.release_stock http t id order_quantity c w ≡ (ok tt, w'))
        × (total_stock (docs w') ≡ total_stock (docs w) +ℤ pos order_quantity)
  release-total c w (d, there) =
      let network = releasing in
      let r = release_request http id order_quantity c in
      let (w', replied, changed) =
        release_route-replies products laws up logger schemas key read_limiter mutation_limiter
          open_gate http c (network.arrives r) id order_quantity w d keyed real
          (network.keeps_headers r) (network.reads_id r refl) (network.reads_quantity r refl)
          there in
      (
        w',
        release_stock-delivered http t id order_quantity c _ w w' network.closed
            (network.sends r w refl ∙ ap delivered replied),
        ap total_stock changed ∙ total-put (has_id id) order_quantity (docs w) d there,
      )

-- The product service as the order service's client reaches it: its database, its surroundings, its key
-- and the network to its two stock routes.
pub record StockSite {W : Type 0} (docs : W → List Product) (http : HttpClient W)
    (t : Transport W StockMutation (ApiSuccessResponse Product)) (id : String) : Type 0 where
  pub products : Collection W Product
  pub laws : CollectionLaws products same_product_id docs
  pub up : Available products
  pub logger : Logger W
  pub logs : (l : LogLevel) (m : String) (u : W) → docs (logger l m u) ≡ docs u
  pub schemas : ProductSchemas
  pub key : String
  pub read_limiter : Gate W
  pub mutation_limiter : Gate W
  pub open_gate : LetsPass mutation_limiter docs
  pub keyed : http.internal_api_key ≡ some key
  pub real : truthy (some key) ≡ true
  pub reserving :
      StockNetwork t
        (reserve_route_of products logger schemas key read_limiter mutation_limiter)
        schemas
        "/reserve"
        id
        order_quantity
  pub releasing :
      StockNetwork t
        (release_route_of products logger schemas key read_limiter mutation_limiter)
        schemas
        "/release"
        id
        order_quantity

module _ {W : Type 0} {docs : W → List Product} {http : HttpClient W}
    {t : Transport W StockMutation (ApiSuccessResponse Product)} {id : String}
    (site : StockSite docs http t id) where
  -- A reservation takes a unit if it succeeds, and then a product with the id is there.
  pub reserve_stock-total :
      (c : Option String) (w : W)
      → let (r, w') = Clients.reserve_stock http t id order_quantity c w in
        (total_stock (docs w')
          ≡ (after_reserve r (record { stock = total_stock (docs w); orders = 0 })).stock)
        × IfOk r (KnownIn docs id w')
  reserve_stock-total =
      reserve-total site.products site.laws site.up site.logger site.logs site.schemas site.key
        site.read_limiter site.mutation_limiter site.open_gate http t site.keyed site.real id
        site.reserving site.releasing

  -- A release of a product that is there succeeds and puts a unit back.
  pub release_stock-total :
      (c : Option String) (w : W)
      → KnownIn docs id w
      → (w' : W) × (Clients.release_stock http t id order_quantity c w ≡ (ok tt, w'))
        × (total_stock (docs w') ≡ total_stock (docs w) +ℤ pos order_quantity)
  release_stock-total =
      release-total site.products site.laws site.up site.logger site.logs site.schemas site.key
        site.read_limiter site.mutation_limiter site.open_gate http t site.keyed site.real id
        site.reserving site.releasing
