-- ===== src/Product/Service.antt =====
-- product-service/src/services/ProductService.ts.
use ecommerce_microservice.Prelude.{ℕ, String, Option, none, some}
use ecommerce_microservice.Prelude.Show.{show, show_int}
use ecommerce_microservice.Shared.Errors.{Error, NotFoundError, ConflictError, ◌++ˢ◌}
use ecommerce_microservice.Shared.Action.{Action, pure, raise, ◌>>=◌}
use ecommerce_microservice.Product.Model.{Product}
use ecommerce_microservice.Product.Repository.{ProductRepository, PaginatedResult}

-- `Insufficient stock for product ${productId}: requested ${quantity}, available ${stock}`
abbrev pub insufficient_stock : String → ℕ → Product → Error
insufficient_stock product_id quantity existing = ConflictError (
    "Insufficient stock for product "
    ++ˢ product_id
    ++ˢ ": requested "
    ++ˢ show quantity
    ++ˢ ", available "
    ++ˢ show_int existing.stock)

module _ {W : Type 0} where
  abbrev pub or_not_found : String → Option Product → Action W Product
  or_not_found product_id none = raise (NotFoundError "Product" product_id)
  or_not_found product_id (some p) = pure p

  abbrev pub refuse_reservation : String → ℕ → Option Product → Action W Product
  refuse_reservation product_id quantity none = raise (NotFoundError "Product" product_id)
  refuse_reservation product_id quantity (some existing) =
      raise (insufficient_stock product_id quantity existing)

module _ {W : Type 0} (repo : ProductRepository W) where
  unfoldable pub get_product_by_id : String → Action W Product
  get_product_by_id product_id = do
    product ← repo.find_by_product_id product_id
    or_not_found product_id product

  unfoldable pub list_products : ℕ → ℕ → Action W (PaginatedResult Product)
  list_products page page_size = repo.find_all page page_size

  unfoldable pub create_product : Product → Action W Product
  create_product product = repo.create product

  abbrev pub explain_refusal : String → ℕ → Option Product → Action W Product
  explain_refusal product_id quantity (some updated) = pure updated
  explain_refusal product_id quantity none =
      repo.find_by_product_id product_id >>= refuse_reservation product_id quantity

  unfoldable pub reserve_stock : String → ℕ → Action W Product
  reserve_stock product_id quantity = do
    updated ← repo.reserve_stock product_id quantity
    explain_refusal product_id quantity updated

  unfoldable pub release_stock : String → ℕ → Action W Product
  release_stock product_id quantity = do
    updated ← repo.release_stock product_id quantity
    or_not_found product_id updated
