-- ===== src/Order/StatusRoute.antt =====
-- PATCH /orders/:orderId/payment-status, as another service calls it.
use ecommerce_microservice.Prelude.{
  String, ◌≡◌, ap, ◌∙◌, true, none, some, List, [], find, update_first,
}
use ecommerce_microservice.Shared.Action.{ok, Action, ◌>>=◌}
use ecommerce_microservice.Shared.Logger.{Logger}
use ecommerce_microservice.Shared.Headers.{truthy}
use ecommerce_microservice.Shared.Dtos.{CreateOrderResponse, UpdateOrderPaymentStatusRequest}
use ecommerce_microservice.Shared.ErrorHandler.{Reply, success, async_handler}
use ecommerce_microservice.Shared.HttpClient.{HttpClient, build_headers}
use ecommerce_microservice.Shared.Middleware.{Gate, valid, validate_request}
use ecommerce_microservice.Shared.Middleware.Laws.{internal_auth-accepts_client}
use ecommerce_microservice.Mongo.{Collection, CollectionLaws, Available, map_option}
use ecommerce_microservice.Order.Model.{Order, same_order}
use ecommerce_microservice.Order.Repository
use ecommerce_microservice.Order.Repository.{
  OrderRepository, has_order_id, set_status, to_attributes?, mongo_order_repository,
}
use ecommerce_microservice.Order.Dependencies.{OrderService, to_response}
use ecommerce_microservice.Order.Service
use ecommerce_microservice.Order.Routes
use ecommerce_microservice.Order.Routes.{OrderSchemas, Request}

-- The handler behind the middleware.
abbrev answer_update :
    {W : Type 0} → OrderService W → OrderSchemas → Request → Action W (Reply CreateOrderResponse)
answer_update s schemas request = do
  order_id ← validate_request schemas.order_id_params request.params
  update ← validate_request schemas.update_payment_status request.body
  Routes.update_payment_status s order_id update

module _ {W : Type 0} (s : OrderService W) {orders : Collection W Order} {docs : W → List Order}
    (laws : CollectionLaws orders same_order docs) (up : Available orders)
    (stores : s.order_repo ≡ mongo_order_repository orders) (id : String)
    (update : UpdateOrderPaymentStatusRequest) (before : Order) where
  abbrev updated : List Order → List Order
  updated ds = update_first (has_order_id id) (set_status update) ds

  row-updates :
      (w : W)
      → find (has_order_id id) (docs w) ≡ some before
      → (w' : W) × (Repository.update_payment_status orders id update w
          ≡ (ok (some (set_status update before)), w'))
        × (docs w' ≡ updated (docs w))
  unfolding Repository.update_payment_status
  row-updates w there =
      let (o, u, called) = up.update_answers (has_order_id id) (set_status update) w in
      let (found, changed) = laws.update_lem (has_order_id id) (set_status update) w u o called in
      let is_o : o ≡ some (set_status update before) =
        found ∙ ap (map_option (set_status update)) there in
      (u, rw (called, is_o), changed)

  service-updates :
      (w : W)
      → find (has_order_id id) (docs w) ≡ some before
      → (w' : W) × (Service.update_payment_status s id update w
          ≡ (ok (some (to_response (set_status update before))), w'))
        × (docs w' ≡ updated (docs w))
  unfolding Service.update_payment_status mongo_order_repository
  service-updates w there =
      let (u, called, changed) = row-updates w there in
      let asked : s.order_repo.update_payment_status id update w
          ≡ (ok (some (set_status update before)), u) =
        ap (λ (repo : OrderRepository W). repo.update_payment_status id update w) stores ∙ called in
      (u, rw asked, changed)

  -- A request with the headers of a client that holds the key, which the schemas accept, sets the
  -- status of its order, and is answered with the order.
  pub payment_status_route-updates :
      (logger : Logger W) (schemas : OrderSchemas) (key : String) (creation status : Gate W)
      (http : HttpClient W) (request : Request) (w : W)
      → http.internal_api_key ≡ some key
      → truthy (some key) ≡ true
      → request.headers ≡ build_headers http none []
      → schemas.order_id_params request.params ≡ valid id
      → schemas.update_payment_status request.body ≡ valid update
      → find (has_order_id id) (docs w) ≡ some before
      → (w' : W) × (Routes.payment_status_route logger schemas key creation status s request w
          ≡ (success 200 (to_response (set_status update before)), w'))
        × (docs w' ≡ updated (docs w))
  unfolding Routes.payment_status_route Routes.update_payment_status async_handler validate_request
  payment_status_route-updates logger schemas key creation status http request w keyed real headed
        named given there =
      let (u, called, changed) = service-updates w there in
      let passes =
        internal_auth-accepts_client (answer_update s schemas request) http key none [] w keyed
          real in
      (u, rw (headed, passes, named, given, called), changed)
