-- ===== src/Product/Model.antt =====
-- product-service/src/models/Product.ts. Prices are thousandths of the currency unit; a stock is an
-- integer, since `$inc` could take it below zero.
use ecommerce_microservice.Prelude.{ℕ, String, Bool, str_eq}
use ecommerce_microservice.Prelude.Int.{ℤ}

pub record Product : Type 0 where
  pub product_id : String
  pub name : String
  pub price : ℕ
  pub stock : ℤ
  pub created_at : ℕ

-- The unique index of the schema.
abbrev pub same_product_id : Product → Product → Bool
same_product_id p q = str_eq p.product_id q.product_id
