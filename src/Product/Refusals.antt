-- ===== src/Product/Refusals.antt =====
-- Reservations and releases that throw: nothing is sold and nothing is put back.
use ecommerce_microservice.Prelude.{
  ℕ, String, ◌≡◌, refl, ◌⊎◌, inl, inr, ◌∙◌, sym, ap, Bool, Option, none, some, List, arith, find,
  update_first, update_first-miss,
}
use ecommerce_microservice.Shared.Errors.{Error}
use ecommerce_microservice.Shared.Action.{throw, pure, bind, bind-eq-throw}
use ecommerce_microservice.Mongo.{Collection, CollectionLaws, Atomic, map_option-eq-none}
use ecommerce_microservice.Product.Repository
use ecommerce_microservice.Product.Model.{Product, same_product_id}
use ecommerce_microservice.Product.Repository.{
  ProductRepository, has_id, has_stock, take_stock, put_stock, to_attributes?,
  mongo_product_repository,
}
use ecommerce_microservice.Product.Service.{
  explain_refusal, refuse_reservation, reserve_stock, release_stock, or_not_found,
}
use ecommerce_microservice.Product.Stock.{reserve_row, find_row, release_row}

module _ {W : Type 0} {products : Collection W Product} {docs : W → List Product}
    (laws : CollectionLaws products same_product_id docs) (atomic : Atomic products docs) where
  row_throws :
      (f : Product → Bool) (u : Product → Product) (w w' : W) (e : Error)
      → bind (products.find_one_and_update f u w) (λ doc. pure (to_attributes? doc)) ≡ (throw e, w')
      → (docs w' ≡ docs w) ⊎ (docs w' ≡ update_first f u (docs w))
  row_throws f u w w' e h =
      elim (bind-eq-throw (products.find_one_and_update f u w) (λ doc. pure (to_attributes? doc))
        h) [
          | inl failed ↦ atomic.update_fails f u w w' e failed
          | inr (doc, v, called, answered) ↦ cc
        ]

  find_throws :
      (id : String) (w w' : W) (e : Error)
      → Repository.find_by_product_id products id w ≡ (throw e, w')
      → docs w' ≡ docs w
  unfolding Repository.find_by_product_id
  find_throws id w w' e h =
      elim (bind-eq-throw (products.find_one (has_id id) w) (λ doc. pure (to_attributes? doc)) h) [
        | inl failed ↦ laws.find_one_fails (has_id id) w w' e failed
        | inr (doc, v, called, answered) ↦ cc
      ]

  refuse_keeps :
      (id : String) (q : ℕ) (o : Option Product) (w w' : W) (e : Error)
      → refuse_reservation id q o w ≡ (throw e, w')
      → w' ≡ w
  refuse_keeps id q none w w' e h = ground arith
  refuse_keeps id q (some d) w w' e h = ground arith

  explain_throws :
      (id : String) (q : ℕ) (r : Option Product) (w w' : W) (e : Error)
      → explain_refusal (mongo_product_repository products) id q r w ≡ (throw e, w')
      → (r ≡ none) × (docs w' ≡ docs w)
  unfolding mongo_product_repository
  explain_throws id q (some p) w w' e h = cc
  explain_throws id q none w w' e h = (
    refl,
    elim (bind-eq-throw (Repository.find_by_product_id products id w) (refuse_reservation id q) h) [
      | inl failed ↦ find_throws id w w' e failed
      | inr (s, v, read, refused) ↦
          rw (refuse_keeps id q s v w' e refused) ((find_row laws id w v s read).1)
    ],
  )

  -- A reservation that is refused leaves every product as it was; one that fails may have been made.
  pub reserve_stock-throws :
      (id : String) (q : ℕ) (w w' : W) (e : Error)
      → reserve_stock (mongo_product_repository products) id q w ≡ (throw e, w')
      → (docs w' ≡ docs w) ⊎ (docs w' ≡ update_first (has_stock id q) (take_stock q) (docs w))
  unfolding reserve_stock mongo_product_repository Repository.reserve_stock
  reserve_stock-throws id q w w' e h =
      elim (bind-eq-throw (Repository.reserve_stock products id q w)
        (explain_refusal (mongo_product_repository products) id q) h) [
          | inl failed ↦ row_throws (has_stock id q) (take_stock q) w w' e failed
          | inr (r, u, called, refused) ↦
              let (found, changed) = reserve_row laws id q w u r called in
              let (missed, kept) = explain_throws id q r u w' e refused in
              inl (
                kept
                ∙ changed
                ∙ update_first-miss (has_stock id q) (take_stock q) (docs w) (
                    map_option-eq-none (take_stock q) (find (has_stock id q) (docs w))
                      (sym found ∙ missed)))
        ]

  not_found_keeps :
      (id : String) (o : Option Product) (w w' : W) (e : Error)
      → or_not_found id o w ≡ (throw e, w')
      → (o ≡ none) × (w' ≡ w)
  not_found_keeps id none w w' e h = (refl, ground arith)
  not_found_keeps id (some d) w w' e h = cc

  -- A release that is refused leaves every product as it was; one that fails may have been made.
  pub release_stock-throws :
      (id : String) (q : ℕ) (w w' : W) (e : Error)
      → release_stock (mongo_product_repository products) id q w ≡ (throw e, w')
      → (docs w' ≡ docs w) ⊎ (docs w' ≡ update_first (has_id id) (put_stock q) (docs w))
  unfolding release_stock mongo_product_repository Repository.release_stock
  release_stock-throws id q w w' e h =
      elim (bind-eq-throw (Repository.release_stock products id q w) (or_not_found id) h) [
        | inl failed ↦ row_throws (has_id id) (put_stock q) w w' e failed
        | inr (r, u, called, refused) ↦
            let (found, changed) = release_row laws id q w u r called in
            let (missed, kept) = not_found_keeps id r u w' e refused in
            inl (
              ap docs kept
              ∙ changed
              ∙ update_first-miss (has_id id) (put_stock q) (docs w) (
                  map_option-eq-none (put_stock q) (find (has_id id) (docs w))
                    (sym found ∙ missed)))
      ]
