-- ===== src/Order/Module.antt =====
-- order-service/src/modules/orderModule.ts: the parts put together. express-rate-limit and Joi
-- stay parameters.
use ecommerce_microservice.Prelude.{ℕ, String, none, some}
use ecommerce_microservice.Shared.Logger.{Logger}
use ecommerce_microservice.Shared.Broker
use ecommerce_microservice.Shared.Broker.{ConfirmChannel}
use ecommerce_microservice.Shared.Dtos.{
  ApiSuccessResponse, CreateOrderResponse, InitiatePaymentRequest, InitiatePaymentResponse,
  OrderStatusResponse, PaymentRetryRequestedEvent,
}
use ecommerce_microservice.Shared.ErrorHandler.{Reply}
use ecommerce_microservice.Shared.HttpClient.{HttpClient, Transport, new_http_client}
use ecommerce_microservice.Shared.Middleware.{Gate}
use ecommerce_microservice.Mongo.{Collection}
use ecommerce_microservice.Order.Model.{Order}
use ecommerce_microservice.Order.Repository.{mongo_order_repository}
use ecommerce_microservice.Order.Clients
use ecommerce_microservice.Order.Clients.{CustomerInfo, ProductInfo, StockMutation}
use ecommerce_microservice.Order.Dependencies.{OrderService}
use ecommerce_microservice.Order.Routes.{
  OrderSchemas, Request, create_route, status_route, payment_status_route,
}

-- The part of the environment that the module reads.
pub record Env : Type 0 where
  pub payment_service_url : String
  pub product_service_url : String
  pub customer_service_url : String
  pub internal_api_key : String

-- The axios instance that HttpClient creates for a base URL, at the types that the clients use.
pub record Axios (W : Type 0) : Type 0 where
  pub payments :
      String → Transport W InitiatePaymentRequest (ApiSuccessResponse InitiatePaymentResponse)
  pub products : String → Transport W (Unit {0}) (ApiSuccessResponse ProductInfo)
  pub stock : String → Transport W StockMutation (Unit {0})
  pub customers : String → Transport W (Unit {0}) (ApiSuccessResponse CustomerInfo)

-- The router, by its routes under `/orders`.
pub record OrderRouter (W : Type 0) : Type 0 where
  pub create : Request → W → Reply CreateOrderResponse × W
  pub status : Request → W → Reply OrderStatusResponse × W
  pub payment_status : Request → W → Reply CreateOrderResponse × W

module _ {W : Type 0} (axios : Axios W) (env : Env) (logger : Logger W) (wait : ℕ → W → W) where
  abbrev pub http_client_for : String → HttpClient W
  http_client_for service_name =
      new_http_client service_name logger wait none (some env.internal_api_key)

  module _ (channel : ConfirmChannel W PaymentRetryRequestedEvent) (orders : Collection W Order)
      (uuid : W → String × W) (now : W → ℕ × W) where
    unfoldable pub new_order_service : OrderService W
    new_order_service =
        let payment = http_client_for "payment-service" in
        let product = http_client_for "product-service" in
        let customer = http_client_for "customer-service" in
        record {
          order_repo = mongo_order_repository orders;
          payment_client = record {
            initiate_payment =
                Clients.initiate_payment payment (axios.payments env.payment_service_url);
          };
          product_client = record {
            get_product = Clients.get_product product (axios.products env.product_service_url);
            reserve_stock = Clients.reserve_stock product (axios.stock env.product_service_url);
            release_stock = Clients.release_stock product (axios.stock env.product_service_url);
          };
          customer_client = record {
            get_customer = Clients.get_customer customer (axios.customers env.customer_service_url);
          };
          publish = Broker.publish channel logger;
          logger = logger;
          uuid = uuid;
          now = now;
        }

    unfoldable pub create_order_module : OrderSchemas → Gate W → Gate W → OrderRouter W
    create_order_module schemas creation_limiter status_limiter = record {
      create =
          create_route logger schemas env.internal_api_key creation_limiter status_limiter
            new_order_service;
      status =
          status_route logger schemas env.internal_api_key creation_limiter status_limiter
            new_order_service;
      payment_status =
          payment_status_route logger schemas env.internal_api_key creation_limiter status_limiter
            new_order_service;
    }
