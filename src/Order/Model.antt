-- ===== src/Order/Model.antt =====
-- order-service/src/models/Order.ts.
use ecommerce_microservice.Prelude.{ℕ, String, Bool, false, ◌||◌, Option, some, str_eq}
use ecommerce_microservice.Shared.Dtos.{OrderStatus}

-- OrderAttributes
pub record Order : Type 0 where
  pub order_id : String
  pub customer_id : String
  pub product_id : String
  pub amount : ℕ
  pub order_status : OrderStatus
  pub payment_initiated : Bool
  pub idempotency_key : Option String
  pub created_at : ℕ

-- A sparse index skips the documents that lack the field.
abbrev pub same_text? : Option String → Option String → Bool
same_text? (some k) (some j) = str_eq k j
same_text? _ _ = false

-- The unique indexes of the schema, on the order id and on the idempotency key.
abbrev pub same_order : Order → Order → Bool
same_order o p = str_eq o.order_id p.order_id || same_text? o.idempotency_key p.idempotency_key
