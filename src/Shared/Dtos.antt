-- ===== src/Shared/Dtos.antt =====
-- shared/src/types/dtos.ts: the messages between the services. Amounts are thousandths of the
-- currency unit, so that the source's tolerance of 0.001 is 1; times are numbers.
use ecommerce_microservice.Prelude.{ℕ, String, Bool, Option}

pub data OrderStatus : Type 0 where
  pending stock_reserved payment_pending confirmed failed : OrderStatus

pub record CreateOrderRequest : Type 0 where
  pub customer_id : String
  pub product_id : String
  pub amount : Option ℕ

pub record CreateOrderResponse : Type 0 where
  pub customer_id : String
  pub order_id : String
  pub product_id : String
  pub order_status : OrderStatus

pub record OrderStatusResponse : Type 0 where
  pub order_id : String
  pub customer_id : String
  pub product_id : String
  pub order_status : OrderStatus
  pub payment_initiated : Bool

pub record InitiatePaymentRequest : Type 0 where
  pub customer_id : String
  pub order_id : String
  pub product_id : String
  pub amount : ℕ

-- Its `status` is the literal 'accepted', which the type alone says.
pub record InitiatePaymentResponse : Type 0 where
  pub payment_id : String
  pub order_id : String

pub record TransactionCreatedEvent : Type 0 where
  pub transaction_id : String
  pub customer_id : String
  pub order_id : String
  pub product_id : String
  pub amount : ℕ
  pub created_at : ℕ

pub record PaymentRetryRequestedEvent : Type 0 where
  pub order_id : String
  pub customer_id : String
  pub product_id : String
  pub amount : ℕ
  pub requested_at : ℕ
  pub attempts : ℕ

pub record UpdateOrderPaymentStatusRequest : Type 0 where
  pub payment_initiated : Bool
  pub order_status : OrderStatus

pub record ApiSuccessResponse (T : Type 0) : Type 0 where
  pub success : Bool
  pub content : T
