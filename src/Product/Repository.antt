-- ===== src/Product/Repository.antt =====
-- product-service/src/repositories/MongoProductRepository.ts, over the collection of products.
use ecommerce_microservice.Prelude.{
  ℕ, ◌-◌, ◌*◌, String, Bool, ◌&&◌, Option, none, some, List, map, str_eq,
}
use ecommerce_microservice.Prelude.Int.{pos, ◌+ℤ◌, ◌-ℤ◌, leb_ℤ}
use ecommerce_microservice.Shared.Action.{Action, pure, ◌>>=◌}
use ecommerce_microservice.Mongo.{Collection}
use ecommerce_microservice.Product.Model.{Product}

pub record PaginatedResult (T : Type 0) : Type 0 where
  pub items : List T
  pub total : ℕ
  pub page : ℕ
  pub page_size : ℕ

-- IProductRepository
pub record ProductRepository (W : Type 0) : Type 0 where
  pub find_by_product_id : String → Action W (Option Product)
  pub create : Product → Action W Product
  pub find_all : ℕ → ℕ → Action W (PaginatedResult Product)
  pub reserve_stock : String → ℕ → Action W (Option Product)
  pub release_stock : String → ℕ → Action W (Option Product)

abbrev pub to_attributes : Product → Product
to_attributes doc = record {
  product_id = doc.product_id;
  name = doc.name;
  price = doc.price;
  stock = doc.stock;
  created_at = doc.created_at;
}

abbrev pub to_attributes? : Option Product → Option Product
to_attributes? none = none
to_attributes? (some doc) = some (to_attributes doc)

-- `{ productId }`
abbrev pub has_id : String → Product → Bool
has_id product_id p = str_eq p.product_id product_id

-- `{ productId, stock: { $gte: quantity } }`
abbrev pub has_stock : String → ℕ → Product → Bool
has_stock product_id quantity p = has_id product_id p && leb_ℤ (pos quantity) p.stock

-- `{ $inc: { stock: -quantity } }`
abbrev pub take_stock : ℕ → Product → Product
take_stock quantity p = record p { stock = p.stock -ℤ pos quantity }

-- `{ $inc: { stock: quantity } }`
abbrev pub put_stock : ℕ → Product → Product
put_stock quantity p = record p { stock = p.stock +ℤ pos quantity }

module _ {W : Type 0} (products : Collection W Product) where
  unfoldable pub find_by_product_id : String → Action W (Option Product)
  find_by_product_id product_id = do
    doc ← products.find_one (has_id product_id)
    pure (to_attributes? doc)

  unfoldable pub create : Product → Action W Product
  create product = do doc ← products.create product; pure (to_attributes doc)

  -- The query schema makes `page` at least 1. The source starts both reads at once.
  unfoldable pub find_all : ℕ → ℕ → Action W (PaginatedResult Product)
  find_all page page_size = do
    docs ← products.find_skip_limit ((page - 1) * page_size) page_size
    total ← products.count_documents
    pure (record {
      items = map to_attributes docs;
      total = total;
      page = page;
      page_size = page_size;
    })

  unfoldable pub reserve_stock : String → ℕ → Action W (Option Product)
  reserve_stock product_id quantity = do
    doc ← products.find_one_and_update (has_stock product_id quantity) (take_stock quantity)
    pure (to_attributes? doc)

  unfoldable pub release_stock : String → ℕ → Action W (Option Product)
  release_stock product_id quantity = do
    doc ← products.find_one_and_update (has_id product_id) (put_stock quantity)
    pure (to_attributes? doc)

  unfoldable pub mongo_product_repository : ProductRepository W
  unfolding find_by_product_id create find_all reserve_stock release_stock
  mongo_product_repository = record {
    find_by_product_id = find_by_product_id;
    create = create;
    find_all = find_all;
    reserve_stock = reserve_stock;
    release_stock = release_stock;
  }
