-- ===== src/Product/Reads.antt =====
-- What reading the catalogue leaves alone: the handlers of GET /products and GET /products/:productId.
use ecommerce_microservice.Prelude.{
  ℕ, ◌*◌, ◌-◌, String, Bool, refl, inl, inr, Option, none, some, List, map,
}
use ecommerce_microservice.Shared.Action.{pure, settled, ◌>>=◌}
use ecommerce_microservice.Shared.ErrorHandler.{success}
use ecommerce_microservice.Shared.Leaves.{Leaves, Leaves-bind}
use ecommerce_microservice.Mongo.{Collection, CollectionLaws}
use ecommerce_microservice.Product.Repository
use ecommerce_microservice.Product.Routes
use ecommerce_microservice.Product.Model.{Product, same_product_id}
use ecommerce_microservice.Product.Repository.{
  ProductRepository, PaginatedResult, has_id, to_attributes, to_attributes?,
  mongo_product_repository,
}
use ecommerce_microservice.Product.Service.{or_not_found, get_product_by_id, list_products}
use ecommerce_microservice.Product.Routes.{ListQuery}

pub or_not_found-Leaves :
    {W X : Type 0} (view : W → X) (id : String) (o : Option Product)
    → Leaves view (or_not_found id o)
or_not_found-Leaves view id none w = refl
or_not_found-Leaves view id (some p) w = refl

-- What a listing answers.
abbrev page_of : ℕ → ℕ → List Product → ℕ → PaginatedResult Product
page_of page page_size ds total = record {
  items = map to_attributes ds;
  total = total;
  page = page;
  page_size = page_size;
}

-- Reads of the collection.
module _ {W : Type 0} (products : Collection W Product) {docs : W → List Product}
    (laws : CollectionLaws products same_product_id docs) where
  find_one-Leaves : (f : Product → Bool) → Leaves docs (products.find_one f)
  find_one-Leaves f w = elim (settled (products.find_one f w)) [
    | inl (r, u, e) ↦ rw e ((laws.find_one_lem f w u r e).1)
    | inr (x, u, e) ↦ rw e (laws.find_one_fails f w u x e)
  ]

  find_skip_limit-Leaves : (skip limit : ℕ) → Leaves docs (products.find_skip_limit skip limit)
  find_skip_limit-Leaves skip limit w = elim (settled (products.find_skip_limit skip limit w)) [
    | inl (r, u, e) ↦ rw e (laws.skip_limit_lem skip limit w u r e)
    | inr (x, u, e) ↦ rw e (laws.skip_limit_fails skip limit w u x e)
  ]

  count_documents-Leaves : Leaves docs products.count_documents
  count_documents-Leaves w = elim (settled (products.count_documents w)) [
    | inl (n, u, e) ↦ rw e ((laws.count_lem w u n e).1)
    | inr (x, u, e) ↦ rw e (laws.count_fails w u x e)
  ]

  pub get_product-Leaves :
      (id : String) → Leaves docs (Routes.get_product (mongo_product_repository products) id)
  unfolding Routes.get_product get_product_by_id mongo_product_repository
      Repository.find_by_product_id
  get_product-Leaves id =
      Leaves-bind docs _ _
        (Leaves-bind docs _ (or_not_found id)
          (Leaves-bind docs (products.find_one (has_id id)) _ (find_one-Leaves (has_id id))
            (λ doc w. refl))
          (or_not_found-Leaves docs id))
        (λ p w. refl)

  find_all-Leaves : (page page_size : ℕ) → Leaves docs (Repository.find_all products page page_size)
  unfolding Repository.find_all
  find_all-Leaves page page_size =
      let answer =
        λ (ds : List Product) (total : ℕ). pure {W = W} (page_of page page_size ds total) in
      Leaves-bind docs (products.find_skip_limit ((page - 1) * page_size) page_size)
        (λ ds. products.count_documents >>= answer ds)
        (find_skip_limit-Leaves ((page - 1) * page_size) page_size)
        (λ ds.
          Leaves-bind docs products.count_documents (answer ds) count_documents-Leaves
            (λ total w. refl))

  pub list_products_page-Leaves :
      (query : ListQuery)
      → Leaves docs (Routes.list_products_page (mongo_product_repository products) query)
  unfolding Routes.list_products_page list_products mongo_product_repository
  list_products_page-Leaves query =
      Leaves-bind docs (Repository.find_all products query.page query.page_size)
        (λ result. pure (success 200 result)) (find_all-Leaves query.page query.page_size)
        (λ result w. refl)
