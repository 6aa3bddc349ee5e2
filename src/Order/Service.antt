-- ===== src/Order/Service.antt =====
-- order-service/src/services/OrderService.ts: the operations.
use ecommerce_microservice.Prelude.{ℕ, String, Bool, true, false, Option, none, some, if◌then◌else◌}
use ecommerce_microservice.Shared.Errors.{Error, is_upstream}
use ecommerce_microservice.Shared.Action.{
  ok, Action, pure, raise, effect, try_catch, on_settled, ◌>>=◌, ◌>>◌,
}
use ecommerce_microservice.Shared.Logger.{LogLevel}
use ecommerce_microservice.Shared.Headers.{truthy}
use ecommerce_microservice.Shared.Topology.{retry_exchange, retry_routing_key}
use ecommerce_microservice.Shared.Dtos.{
  CreateOrderRequest, CreateOrderResponse, OrderStatusResponse, InitiatePaymentRequest,
  UpdateOrderPaymentStatusRequest,
}
use ecommerce_microservice.Mongo.{map_option}
use ecommerce_microservice.Order.Model.{Order}
use ecommerce_microservice.Order.Dependencies.{
  OrderService, order_quantity, to_response, to_status_response, key_text, or_saved, is_mismatch,
  is_duplicate_key, pending_update, confirmed_update, retry_event, payload_of, new_order,
}

abbrev pub replay_message : String
replay_message = "Idempotent replay - returning existing order instead of creating a new one"

abbrev pub mismatch_message : String
mismatch_message =
    "Client-supplied amount does not match product price - ignoring client value and using server price"

abbrev pub degrade_message : String
degrade_message =
    "Payment Service unreachable after retries - degrading gracefully and queuing for reconciliation"

abbrev pub unpublished_message : String
unpublished_message =
    "Failed to publish payment-retry event after broker confirm failure - order will need manual reconciliation"

abbrev pub race_message : String
race_message =
    "Lost a create race on idempotency key - returning the order the other request created"

module _ {W : Type 0} (s : OrderService W) where
  abbrev pub log : LogLevel → String → Action W (Unit {0})
  log level message = effect (s.logger level message)

  -- What the runtime gives never fails.
  abbrev pub draw : {A : Type 0} → (W → A × W) → Action W A
  draw f w = let (a, w') = f w in (ok a, w')

  unfoldable pub compensate_stock_release : String → Option String → Action W (Unit {0})
  compensate_stock_release product_id correlation_id =
      try_catch (s.product_client.release_stock product_id order_quantity correlation_id) λ _.
        log LogLevel.error
          "Failed to release reserved stock during compensation - stock count may be understated"

  -- The `catch` of `tryInitiatePayment`, once the error is known to be an upstream one.
  unfoldable pub queue_for_retry : InitiatePaymentRequest → Option String → Action W Bool
  queue_for_retry payload correlation_id = do
    log LogLevel.warn degrade_message
    now ← draw s.now
    try_catch
        (s.publish retry_exchange retry_routing_key (retry_event payload now) correlation_id
          >>= λ _. pure tt)
        λ _. log LogLevel.error unpublished_message
    pure false

  unfoldable pub try_initiate_payment : InitiatePaymentRequest → Option String → Action W Bool
  try_initiate_payment payload correlation_id =
      try_catch (s.payment_client.initiate_payment payload correlation_id >>= λ _. pure true)
        λ err. if is_upstream err then queue_for_retry payload correlation_id else raise err

  -- The end of `createOrder`, from the two status updates on.
  abbrev pub confirm_if : Bool → String → Order → Action W CreateOrderResponse
  confirm_if false order_id saved = pure (to_response saved)
  confirm_if true order_id saved = do
    updated ← s.order_repo.update_payment_status order_id confirmed_update
    pure (to_response (or_saved updated saved))

  unfoldable pub take_payment :
      CreateOrderRequest → Option String → String → ℕ → Order → Action W CreateOrderResponse
  take_payment request correlation_id order_id amount saved = do
    pending ← s.order_repo.update_payment_status order_id pending_update
    initiated ← try_initiate_payment (payload_of request order_id amount) correlation_id
    confirm_if initiated order_id (or_saved pending saved)

  abbrev pub winner_or : Error → Option Order → Action W CreateOrderResponse
  winner_or err none = raise err
  winner_or err (some existing) = do log LogLevel.info race_message; pure (to_response existing)

  abbrev pub winner_of : Bool → Option String → Error → Action W CreateOrderResponse
  winner_of false key err = raise err
  winner_of true key err = s.order_repo.find_by_idempotency_key (key_text key) >>= winner_or err

  -- The `catch` round the creation of the order.
  unfoldable pub recover :
      CreateOrderRequest → Option String → Option String → Error → Action W CreateOrderResponse
  recover request correlation_id key err = do
    compensate_stock_release request.product_id correlation_id
    winner_of (is_duplicate_key key err) key err

  abbrev pub warn_mismatch : Bool → Action W (Unit {0})
  warn_mismatch false = pure tt
  warn_mismatch true = log LogLevel.warn mismatch_message

  -- From the reservation on: the order is written before any payment is tried.
  unfoldable pub place_order :
      CreateOrderRequest → Option String → Option String → ℕ → Action W CreateOrderResponse
  place_order request correlation_id key amount = do
    s.product_client.reserve_stock request.product_id order_quantity correlation_id
    order_id ← draw s.uuid
    now ← draw s.now
    λ w.
        on_settled (s.order_repo.create (new_order request key order_id amount now) w)
          (take_payment request correlation_id order_id amount) (recover request correlation_id key)

  unfoldable pub checkout :
      CreateOrderRequest → Option String → Option String → Action W CreateOrderResponse
  checkout request correlation_id key = do
    _ ← s.customer_client.get_customer request.customer_id correlation_id
    product ← s.product_client.get_product request.product_id correlation_id
    warn_mismatch (is_mismatch request.amount product.price)
    place_order request correlation_id key product.price

  abbrev pub replay_or :
      CreateOrderRequest
      → Option String
      → Option String
      → Option Order
      → Action W CreateOrderResponse
  replay_or request correlation_id key none = checkout request correlation_id key
  replay_or request correlation_id key (some existing) = do
    log LogLevel.info replay_message
    pure (to_response existing)

  unfoldable pub create_order :
      CreateOrderRequest → Option String → Option String → Action W CreateOrderResponse
  create_order request correlation_id key =
      if truthy key
      then (s.order_repo.find_by_idempotency_key (key_text key)
          >>= replay_or request correlation_id key)
      else checkout request correlation_id key

  unfoldable pub update_payment_status :
      String → UpdateOrderPaymentStatusRequest → Action W (Option CreateOrderResponse)
  update_payment_status order_id update = do
    updated ← s.order_repo.update_payment_status order_id update
    pure (map_option to_response updated)

  unfoldable pub get_order_status : String → Action W (Option OrderStatusResponse)
  get_order_status order_id = do
    order ← s.order_repo.find_by_order_id order_id
    pure (map_option to_status_response order)
