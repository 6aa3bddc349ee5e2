-- ===== src/Customer/Directory.antt =====
-- The customers as a directory: what was created is found.
use ecommerce_microservice.Prelude.{
  String, ◌≡◌, refl, sym, ap, ◌∙◌, false, none, some, List, [], ◌∷◌, ◌++◌, find, any,
  find-append_none, str_eq_iff, str_eq_refl, arith,
}
use ecommerce_microservice.Shared.Action.{ok, bind-eq-ok, ok-eq}
use ecommerce_microservice.Mongo.{Collection, CollectionLaws, Available}
use ecommerce_microservice.Customer.Service.{
  Customer, stored_as, same_customer, has_customer_id, find_by_customer_id, create,
  mongo_customer_repository, get_customer_by_id, create_customer,
}

find_customer-fresh :
    (c : Customer) (ds : List Customer)
    → any (same_customer c) ds ≡ false
    → find (has_customer_id c.customer_id) ds ≡ none
find_customer-fresh c [] h = refl
find_customer-fresh c (d ∷ ds) h = ground (
  arith,
  find_customer-fresh c ds,
  str_eq_iff c.customer_id d.customer_id,
  str_eq_iff d.customer_id c.customer_id,
)

module _ {W : Type 0} {customers : Collection W Customer} {docs : W → List Customer}
    (laws : CollectionLaws customers same_customer docs) (up : Available customers)
    (setter : String → String) where
  -- A customer that was created is found by a lookup of the id, with its e-mail address as the schema's
  -- setters make it and all else as it was given, and the creation answers with the same, while the customers
  -- are as the creation left them and the database is up; the lookup leaves them alone.
  pub get_customer_by_id-create_customer :
      (c r : Customer) (w w' u : W)
      → create_customer (mongo_customer_repository customers setter) c w ≡ (ok r, w')
      → docs u ≡ docs w'
      → (u' : W) × (get_customer_by_id (mongo_customer_repository customers setter) c.customer_id u
          ≡ (ok (record c { email = setter c.email }), u'))
        × (r ≡ record c { email = setter c.email })
        × (docs u' ≡ docs u)
  unfolding create_customer get_customer_by_id mongo_customer_repository find_by_customer_id create
  get_customer_by_id-create_customer c r w w' u created between =
      let s = stored_as setter c in
      let (doc, v, called, rest) = bind-eq-ok (customers.create s w) _ created in
      let (answer, world) = ok-eq rest in
      let (same, added, fresh) = laws.create_lem s w v doc called in
      let test = has_customer_id c.customer_id in
      let found : find test (docs w ++ s ∷ []) ≡ some s =
        find-append_none test (docs w) s (find_customer-fresh s (docs w) fresh)
        ∙ rw (str_eq_refl c.customer_id) in
      let rows = between ∙ sym (ap docs world) ∙ added in
      let (o, z, read) = up.find_answers test u in
      let (seen, kept) = laws.find_one_lem test u z o read in
      let is_s : o ≡ some s = seen ∙ ap (find test) rows ∙ found in
      (z, rw (read, is_s), sym answer ∙ same, kept)
