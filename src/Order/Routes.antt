-- ===== src/Order/Routes.antt =====
-- order-service/src: controllers/OrderController.ts and routes/orderRoutes.ts, the handlers behind
-- their middlewares. The limiters and Joi's reading of the schemas are parameters.
use ecommerce_microservice.Prelude.{String, ◌≡◌, ◌≢◌, Option, none, some, [], ◌∷◌}
use ecommerce_microservice.Shared.Json.{Json}
use ecommerce_microservice.Shared.Errors.{NotFoundError}
use ecommerce_microservice.Shared.Action.{Action, pure, raise, ◌>>=◌}
use ecommerce_microservice.Shared.Logger.{Logger}
use ecommerce_microservice.Shared.Headers.{
  Headers, header, internal_api_key_header, correlation_id_header,
}
use ecommerce_microservice.Shared.Dtos.{
  CreateOrderRequest, CreateOrderResponse, OrderStatusResponse, UpdateOrderPaymentStatusRequest,
}
use ecommerce_microservice.Shared.ErrorHandler.{Reply, success, failure, async_handler}
use ecommerce_microservice.Shared.Middleware.{
  Gate, Validation, guarded_by, internal_auth, validate_request, forbidden,
}
use ecommerce_microservice.Shared.Middleware.Laws.{internal_auth-refuses}
use ecommerce_microservice.Order.Service
use ecommerce_microservice.Order.Dependencies.{OrderService}

abbrev pub idempotency_key_header : String
idempotency_key_header = "idempotency-key"

pub record OrderSchemas : Type 0 where
  pub create_order : Json → Validation CreateOrderRequest
  pub order_id_params : Json → Validation String
  pub update_payment_status : Json → Validation UpdateOrderPaymentStatusRequest

-- `correlation_id` is what correlationIdMiddleware set.
pub record Request : Type 0 where
  pub correlation_id : String
  pub headers : Headers
  pub params : Json
  pub body : Json

module _ {W T : Type 0} where
  abbrev pub or_not_found : String → Option T → Action W (Reply T)
  or_not_found order_id none = raise (NotFoundError "Order" order_id)
  or_not_found order_id (some answer) = pure (success 200 answer)

module _ {W : Type 0} (s : OrderService W) where
  unfoldable pub create_order :
      CreateOrderRequest → String → Headers → Action W (Reply CreateOrderResponse)
  create_order payload correlation_id headers = do
    order ←
        Service.create_order s payload (some correlation_id) (header idempotency_key_header headers)
    pure (success 201 order)

  unfoldable pub get_order_status : String → Action W (Reply OrderStatusResponse)
  get_order_status order_id = Service.get_order_status s order_id >>= or_not_found order_id

  unfoldable pub update_payment_status :
      String → UpdateOrderPaymentStatusRequest → Action W (Reply CreateOrderResponse)
  update_payment_status order_id update =
      Service.update_payment_status s order_id update >>= or_not_found order_id

module _ {W : Type 0} (logger : Logger W) (schemas : OrderSchemas) (internal_api_key : String)
    (creation_limiter status_limiter : Gate W) (s : OrderService W) where
  abbrev pub answered : {T : Type 0} → Request → Action W (Reply T) → W → Reply T × W
  answered request = async_handler logger (header correlation_id_header request.headers)

  unfoldable pub create_route : Request → W → Reply CreateOrderResponse × W
  create_route request = answered request (
      guarded_by (creation_limiter ∷ []) do
        payload ← validate_request schemas.create_order request.body
        create_order s payload request.correlation_id request.headers)

  unfoldable pub status_route : Request → W → Reply OrderStatusResponse × W
  status_route request = answered request (
      guarded_by (status_limiter ∷ []) do
        order_id ← validate_request schemas.order_id_params request.params
        get_order_status s order_id)

  unfoldable pub payment_status_route : Request → W → Reply CreateOrderResponse × W
  payment_status_route request = answered request (
      guarded_by (internal_auth internal_api_key request.headers ∷ []) do
        order_id ← validate_request schemas.order_id_params request.params
        update ← validate_request schemas.update_payment_status request.body
        update_payment_status s order_id update)

  -- Without the internal key, or with another one, a request to set the payment status of an order is
  -- answered 403, and the world stays as it was: no order is read or written.
  pub payment_status_route-refuses :
      (request : Request) (w : W)
      → header internal_api_key_header request.headers ≢ some internal_api_key
      → payment_status_route request w ≡ (failure 403 forbidden, w)
  unfolding payment_status_route async_handler
  payment_status_route-refuses request w other =
      rw (internal_auth-refuses _ internal_api_key request.headers w other)
