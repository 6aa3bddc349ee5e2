-- ===== src/Retry/Confirms.antt =====
-- The retry worker and the order service over HTTP: what an accepted retry does to its order.
use ecommerce_microservice.Prelude.{
  ℕ, String, ◌≡◌, refl, ap, ◌∙◌, true, none, some, List, [], find, update_first, str_eq, arith,
}
use ecommerce_microservice.Shared.Action.{ok}
use ecommerce_microservice.Shared.Logger.{Logger, LogLevel}
use ecommerce_microservice.Shared.Headers.{truthy}
use ecommerce_microservice.Shared.Dtos.{
  confirmed, ApiSuccessResponse, CreateOrderResponse, InitiatePaymentResponse,
  PaymentRetryRequestedEvent, UpdateOrderPaymentStatusRequest,
}
use ecommerce_microservice.Shared.Broker.{ConfirmChannel}
use ecommerce_microservice.Shared.ErrorHandler.{Reply, success}
use ecommerce_microservice.Shared.HttpClient.{
  HttpClient, HttpRequest, Method, Transport, new_http_client, build_headers, execute_with_retry,
  call,
}
use ecommerce_microservice.Shared.HttpClient.Retry.{start, execute_with_retry-ok}
use ecommerce_microservice.Shared.Network.{Carries, delivered}
use ecommerce_microservice.Shared.Middleware.{Gate, valid}
use ecommerce_microservice.Mongo.{Collection, CollectionLaws, Available}
use ecommerce_microservice.Order.Module
use ecommerce_microservice.Order.Model.{Order, same_order}
use ecommerce_microservice.Order.Repository.{has_order_id, set_status}
use ecommerce_microservice.Order.StatusRoute.{payment_status_route-updates}
use ecommerce_microservice.Order.Dependencies.{to_response}
use ecommerce_microservice.Order.Routes.{OrderSchemas, Request}
use ecommerce_microservice.Retry.Clients
use ecommerce_microservice.Retry.Clients.{payment_status_path}
use ecommerce_microservice.Retry.Processor.{
  PaymentRetryProcessor, request_of, mark_confirmed, succeeded_message, attempt_payment, handle,
}

abbrev pub confirmed_and_paid : Order → Order
confirmed_and_paid o = record o { order_status = confirmed; payment_initiated = true }

-- That the schemas accept the path of this order and the body, and that the headers arrive.
pub record Reaches {W : Type 0}
    (t : Transport W UpdateOrderPaymentStatusRequest (ApiSuccessResponse CreateOrderResponse))
    (route : Request → W → Reply CreateOrderResponse × W) (schemas : OrderSchemas) (id : String)
    : Type 0 where
  pub carries : Carries t route
  pub keeps_headers :
      (r : HttpRequest UpdateOrderPaymentStatusRequest) → (carries.arrives r).headers ≡ r.headers
  pub reads_id :
      (r : HttpRequest UpdateOrderPaymentStatusRequest)
      → r.path ≡ payment_status_path id
      → schemas.order_id_params (carries.arrives r).params ≡ valid id
  pub reads_update :
      (r : HttpRequest UpdateOrderPaymentStatusRequest)
      → schemas.update_payment_status (carries.arrives r).body ≡ valid r.body

module _ {W : Type 0} (axios : Clients.Axios W) (env : Clients.Env) (logger : Logger W)
    (wait : ℕ → W → W) (channel : ConfirmChannel W PaymentRetryRequestedEvent)
    (order_axios : Module.Axios W) (order_env : Module.Env) (order_logger : Logger W)
    (orders : Collection W Order) (uuid : W → String × W) (now : W → ℕ × W) (schemas : OrderSchemas)
    (creation_limiter status_limiter : Gate W) where
  abbrev pub router : Module.OrderRouter W
  router =
      Module.create_order_module order_axios order_env order_logger wait channel orders uuid now
        schemas creation_limiter status_limiter

  abbrev pub processor : PaymentRetryProcessor W
  processor = Clients.new_processor axios env logger wait channel

  abbrev pub order_client : HttpClient W
  order_client = Clients.http_client_for axios env logger wait channel "order-service"

  -- What the worker's client sends.
  abbrev update_request :
      String → UpdateOrderPaymentStatusRequest → HttpRequest UpdateOrderPaymentStatusRequest
  update_request id update = record {
    method = Method.patch;
    path = payment_status_path id;
    body = update;
    headers = build_headers order_client none [];
  }

  module _ {docs : W → List Order} (laws : CollectionLaws orders same_order docs)
      (up : Available orders) (same_key : env.internal_api_key ≡ order_env.internal_api_key)
      (real_key : truthy (some order_env.internal_api_key) ≡ true) (id : String)
      (network : Reaches (axios.orders env.order_service_url) router.payment_status schemas id)
      (before : Order) where
    arrives-updates :
        (update : UpdateOrderPaymentStatusRequest) (w : W)
        → find (has_order_id id) (docs w) ≡ some before
        → (w' : W) × (router.payment_status (network.carries.arrives (update_request id update)) w
            ≡ (success 200 (to_response (set_status update before)), w'))
          × (docs w' ≡ update_first (has_order_id id) (set_status update) (docs w))
    unfolding Module.create_order_module Module.new_order_service new_http_client
    arrives-updates update w there =
        let request = update_request id update in
        payment_status_route-updates
          (Module.new_order_service order_axios order_env order_logger wait channel orders uuid now)
          laws up refl id update before order_logger schemas order_env.internal_api_key
          creation_limiter status_limiter order_client (network.carries.arrives request) w
          (ap some same_key) real_key (network.keeps_headers request)
          (network.reads_id request refl) (network.reads_update request) there

    client-updates :
        (update : UpdateOrderPaymentStatusRequest) (w : W)
        → find (has_order_id id) (docs w) ≡ some before
        → (w' : W) × (processor.update_payment_status id update w ≡ (ok tt, w'))
          × (docs w' ≡ update_first (has_order_id id) (set_status update) (docs w))
    unfolding Clients.new_processor Clients.update_payment_status call
    client-updates update w there =
        let t = axios.orders env.order_service_url in
        let request = update_request id update in
        let (w', answered, changed) = arrives-updates update w there in
        let sent = network.carries.sends request w ∙ ap delivered answered in
        let ended =
          execute_with_retry-ok order_client (t.send request) 0 _ start (omega arith) sent in
        let through =
          network.carries.closed (execute_with_retry order_client (t.send request)) w ∙ ended in
        (w', rw through, changed)

    -- A retried payment that the payment service accepts confirms its order: the worker's handler
    -- succeeds, and in the order service's database the order of the event, which is there, is
    -- confirmed and marked as paid and no other document changes, if the two services hold the same
    -- key, the request reaches the route, whose schemas accept it, the breaker is closed, the database
    -- answers and the worker's log writes no orders.
    pub handle-confirms_order :
        (event : PaymentRetryRequestedEvent) (answer : InitiatePaymentResponse) (w u : W)
        → event.order_id ≡ id
        → ((l : LogLevel) (m : String) (v : W) → docs (logger l m v) ≡ docs v)
        → processor.initiate_payment (request_of event) w ≡ (ok answer, u)
        → find (has_order_id id) (docs u) ≡ some before
        → (w' : W) × (handle processor event w ≡ (ok tt, w'))
          × (docs w' ≡ update_first (λ o. str_eq o.order_id id) confirmed_and_paid (docs u))
    unfolding handle attempt_payment
    handle-confirms_order event answer w u same logs paid there =
        let (v, told, changed) = client-updates mark_confirmed u there in
        let asked : processor.update_payment_status event.order_id mark_confirmed u ≡ (ok tt, v) =
          ap (λ i. processor.update_payment_status i mark_confirmed u) same ∙ told in
        (
          processor.logger LogLevel.info succeeded_message v,
          rw (paid, asked),
          unfold Clients.new_processor in logs LogLevel.info succeeded_message v ∙ changed,
        )
