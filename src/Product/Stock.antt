-- ===== src/Product/Stock.antt =====
-- What reserving and releasing do to the products, over a MongoDB collection.
use ecommerce_microservice.Prelude.{
  ℕ, String, ◌≡◌, refl, inl, inr, ◌∙◌, sym, Option, none, some, List, arith, find, ap, str_eq, Bool,
  ◌&&◌, update_first, update_first-miss, Option-cases,
}
use ecommerce_microservice.Shared.Errors.{Error, NotFoundError, ConflictError, ◌++ˢ◌}
use ecommerce_microservice.Prelude.Int.{pos, ◌-ℤ◌, leb_ℤ}
use ecommerce_microservice.Prelude.Show.{show, show_int}
use ecommerce_microservice.Shared.Action.{Outcome, ok, throw, bind-eq-ok}
use ecommerce_microservice.Mongo.{
  Collection, CollectionLaws, Available, map_option, map_option-eq-some,
}
use ecommerce_microservice.Product.Repository
use ecommerce_microservice.Product.Model.{Product, same_product_id}
use ecommerce_microservice.Product.Repository.{
  has_id, has_stock, take_stock, put_stock, to_attributes?, mongo_product_repository,
}
use ecommerce_microservice.Product.Service.{
  insufficient_stock, explain_refusal, refuse_reservation, reserve_stock, release_stock,
  or_not_found,
}

-- What a refused reservation throws, from the product that is there.
abbrev pub refusal : String → ℕ → Option Product → Error
refusal product_id quantity none = NotFoundError "Product" product_id
refusal product_id quantity (some existing) = insufficient_stock product_id quantity existing

abbrev pub answer_reservation : String → ℕ → Option Product → Option Product → Outcome Product
answer_reservation product_id quantity (some d) existing = ok (take_stock quantity d)
answer_reservation product_id quantity none existing = throw (refusal product_id quantity existing)

-- What a reservation answers, said of the products alone: is there a product with the id, is there one
-- with at least the quantity, and what is it with the quantity less.
abbrev pub is_called : String → Product → Bool
is_called id p = str_eq p.product_id id

abbrev pub suffices : String → ℕ → Product → Bool
suffices id q p = str_eq p.product_id id && leb_ℤ (pos q) p.stock

abbrev pub fewer : ℕ → Product → Product
fewer q p = record p { stock = p.stock -ℤ pos q }

abbrev pub reserve_answer : String → ℕ → Option Product → Option Product → Outcome Product
reserve_answer id q (some enough) named = ok (fewer q enough)
reserve_answer id q none (some short) = throw (
    ConflictError (
      "Insufficient stock for product "
      ++ˢ id
      ++ˢ ": requested "
      ++ˢ show q
      ++ˢ ", available "
      ++ˢ show_int short.stock))
reserve_answer id q none none = throw (NotFoundError "Product" id)

abbrev pub reserve_spec : String → ℕ → List Product → Outcome Product
reserve_spec id q ds = reserve_answer id q (find (suffices id q) ds) (find (is_called id) ds)

abbrev pub reserved_rows : String → ℕ → List Product → List Product
reserved_rows id q ds = update_first (suffices id q) (fewer q) ds

answer_reservation_lem :
    (id : String) (q : ℕ) (enough named : Option Product)
    → answer_reservation id q enough named ≡ reserve_answer id q enough named
answer_reservation_lem id q (some d) named = refl
answer_reservation_lem id q none none = refl
answer_reservation_lem id q none (some d) = refl

to_attributes?-id : (o : Option Product) → to_attributes? o ≡ o
to_attributes?-id none = refl
to_attributes?-id (some d) = refl

refuse_reservation-throws :
    {W : Type 0} (product_id : String) (quantity : ℕ) (o : Option Product) {p : Product} (u : W)
    {w : W}
    → ¬ (refuse_reservation product_id quantity o u ≡ (ok p, w))
refuse_reservation-throws product_id quantity none u h = cc
refuse_reservation-throws product_id quantity (some d) u h = cc

or_not_found-ok :
    {W : Type 0} (product_id : String) (o : Option Product) {u w : W} {p : Product}
    → or_not_found product_id o u ≡ (ok p, w)
    → (o ≡ some p) × (u ≡ w)
or_not_found-ok product_id none h = cc
or_not_found-ok product_id (some d) h = (ground arith, ground arith)

module _ {W : Type 0} {products : Collection W Product} {docs : W → List Product}
    (laws : CollectionLaws products same_product_id docs) where
  -- The repository's call, by the laws of the collection.
  pub reserve_row :
      (product_id : String) (quantity : ℕ) (w w' : W) (r : Option Product)
      → Repository.reserve_stock products product_id quantity w ≡ (ok r, w')
      → (r ≡ map_option (take_stock quantity) (find (has_stock product_id quantity) (docs w)))
        × (docs w' ≡ update_first (has_stock product_id quantity) (take_stock quantity) (docs w))
  unfolding Repository.reserve_stock
  reserve_row product_id quantity w w' r h =
      let (doc, u, called, answered) = bind-eq-ok _ _ h in
      let (found, changed) = laws.update_lem _ _ w u doc called in
      (ground (arith, to_attributes?-id doc), ground arith)

  pub find_row :
      (product_id : String) (w w' : W) (r : Option Product)
      → Repository.find_by_product_id products product_id w ≡ (ok r, w')
      → (r ≡ find (has_id product_id) (docs w)) × (docs w' ≡ docs w)
  unfolding Repository.find_by_product_id
  find_row product_id w w' r h =
      let (doc, u, called, answered) = bind-eq-ok _ _ h in
      let (found, kept) = laws.find_one_lem _ w u doc called in
      (ground (arith, to_attributes?-id doc), ground arith)

  pub release_row :
      (product_id : String) (quantity : ℕ) (w w' : W) (r : Option Product)
      → Repository.release_stock products product_id quantity w ≡ (ok r, w')
      → (r ≡ map_option (put_stock quantity) (find (has_id product_id) (docs w)))
        × (docs w' ≡ update_first (has_id product_id) (put_stock quantity) (docs w))
  unfolding Repository.release_stock
  release_row product_id quantity w w' r h =
      let (doc, u, called, answered) = bind-eq-ok _ _ h in
      let (found, changed) = laws.update_lem _ _ w u doc called in
      (ground (arith, to_attributes?-id doc), ground arith)

  explain_refusal-ok :
      (product_id : String) (quantity : ℕ) (r : Option Product) {u w : W} {p : Product}
      → explain_refusal (mongo_product_repository products) product_id quantity r u ≡ (ok p, w)
      → (r ≡ some p) × (u ≡ w)
  unfolding mongo_product_repository
  explain_refusal-ok product_id quantity (some d) h = (ground arith, ground arith)
  explain_refusal-ok product_id quantity none {u} h =
      let (existing, v, called, refused) =
        bind-eq-ok (Repository.find_by_product_id products product_id u)
          (refuse_reservation product_id quantity) h in
      absurd (refuse_reservation-throws product_id quantity existing v refused)

  -- A reservation that succeeds found a product with at least the quantity in stock, took exactly
  -- the quantity from the first such product and changed nothing else; it returns that product.
  pub reserve_stock-ok :
      (product_id : String) (quantity : ℕ) (w w' : W) (p : Product)
      → reserve_stock (mongo_product_repository products) product_id quantity w ≡ (ok p, w')
      → (d : Product) × (find (has_stock product_id quantity) (docs w) ≡ some d)
        × (p ≡ take_stock quantity d)
        × (docs w' ≡ update_first (has_stock product_id quantity) (take_stock quantity) (docs w))
  unfolding reserve_stock mongo_product_repository
  reserve_stock-ok product_id quantity w w' p h =
      let (r, u, reserved, rest) =
        bind-eq-ok (Repository.reserve_stock products product_id quantity w)
          (explain_refusal (mongo_product_repository products) product_id quantity) h in
      let (found, changed) = reserve_row product_id quantity w u r reserved in
      let (granted, same) = explain_refusal-ok product_id quantity r rest in
      let (d, there, taken) =
        map_option-eq-some (take_stock quantity) (find (has_stock product_id quantity) (docs w))
          (sym found ∙ granted) in
      (d, there, taken, rw (← same) changed)

  -- A release that succeeds added exactly the quantity to the product and changed nothing else.
  pub release_stock-ok :
      (product_id : String) (quantity : ℕ) (w w' : W) (p : Product)
      → release_stock (mongo_product_repository products) product_id quantity w ≡ (ok p, w')
      → (d : Product) × (find (has_id product_id) (docs w) ≡ some d)
        × (p ≡ put_stock quantity d)
        × (docs w' ≡ update_first (has_id product_id) (put_stock quantity) (docs w))
  unfolding release_stock mongo_product_repository
  release_stock-ok product_id quantity w w' p h =
      let (r, u, released, rest) =
        bind-eq-ok (Repository.release_stock products product_id quantity w)
          (or_not_found product_id) h in
      let (found, changed) = release_row product_id quantity w u r released in
      let (given, same) = or_not_found-ok product_id r rest in
      let (d, there, put) =
        map_option-eq-some (put_stock quantity) (find (has_id product_id) (docs w))
          (sym found ∙ given) in
      (d, there, put, rw (← same) changed)

  reserve_granted :
      (product_id : String) (quantity : ℕ) (p : Product) (w u : W)
      → products.find_one_and_update (has_stock product_id quantity) (take_stock quantity) w
        ≡ (ok (some p), u)
      → reserve_stock (mongo_product_repository products) product_id quantity w ≡ (ok p, u)
  unfolding reserve_stock mongo_product_repository
  reserve_granted product_id quantity p w u updated = rw updated

  reserve_missing :
      (product_id : String) (quantity : ℕ) (s : Option Product) (w u v : W)
      → products.find_one_and_update (has_stock product_id quantity) (take_stock quantity) w
        ≡ (ok none, u)
      → products.find_one (has_id product_id) u ≡ (ok s, v)
      → reserve_stock (mongo_product_repository products) product_id quantity w
        ≡ (throw (refusal product_id quantity s), v)
  unfolding reserve_stock mongo_product_repository
  reserve_missing product_id quantity none w u v updated read = rw (updated, read)
  reserve_missing product_id quantity (some d) w u v updated read = rw (updated, read)

  reserve_stock-answers :
      Available products
      → (product_id : String) (quantity : ℕ) (w : W)
      → (w' : W) × (reserve_stock (mongo_product_repository products) product_id quantity w ≡ (
        answer_reservation product_id quantity
            (find (has_stock product_id quantity) (docs w))
            (find (has_id product_id) (docs w)),
        w',
      ))
        × (docs w' ≡ update_first (has_stock product_id quantity) (take_stock quantity) (docs w))
  reserve_stock-answers up product_id quantity w =
      let test = has_stock product_id quantity in
      let (r, u, updated) = up.update_answers test (take_stock quantity) w in
      let (found, changed) = laws.update_lem _ _ w u r updated in
      let (s, v, read) = up.find_answers (has_id product_id) u in
      let (seen, kept) = laws.find_one_lem _ u v s read in
      elim (Option-cases (find test (docs w))) [
        | inr (d, there) ↦ (
          u,
          reserve_granted product_id quantity (take_stock quantity d) w u (
                updated ∙ ap (λ o. (ok o, u)) (found ∙ ap (map_option (take_stock quantity)) there))
              ∙ ap
                  (λ o. (
                    answer_reservation product_id quantity o (find (has_id product_id) (docs w)),
                    u,
                  ))
                  (sym there),
          changed,
        )
        | inl missing ↦
            let same = changed ∙ update_first-miss test (take_stock quantity) (docs w) missing in
            (
              v,
              reserve_missing product_id quantity s w u v
                    (updated
                      ∙ ap (λ o. (ok o, u)) (found ∙ ap (map_option (take_stock quantity)) missing))
                    read
                  ∙ rw (missing, seen, same),
              kept ∙ changed,
            )
      ]

  -- With the database up, a reservation answers what the specification says on every branch: the
  -- product with the quantity less, that no such product exists, or that the stock is short, with the
  -- number available. The products are those before, with the quantity less in the first that has it.
  pub reserve_stock-refines :
      Available products
      → (product_id : String) (quantity : ℕ) (w : W)
      → (w' : W) × (reserve_stock (mongo_product_repository products) product_id quantity w
          ≡ (reserve_spec product_id quantity (docs w), w'))
        × (docs w' ≡ reserved_rows product_id quantity (docs w))
  reserve_stock-refines up product_id quantity w =
      let (w', answered, changed) = reserve_stock-answers up product_id quantity w in
      (w', answered ∙ ap (λ r. (r, w')) (answer_reservation_lem product_id quantity _ _), changed)
