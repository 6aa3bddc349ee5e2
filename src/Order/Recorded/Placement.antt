-- ===== src/Order/Recorded/Placement.antt =====
-- From the reservation to the answer, the lost race included.
use ecommerce_microservice.Prelude.{
  ℕ, String, ◌≡◌, refl, ap, sym, subst, inl, inr, ◌∙◌, true, false, Bool, Option, none, some, List,
  [], ◌∷◌, ◌++◌, arith, find, find-append_none, str_eq_refl,
}
use ecommerce_microservice.Shared.Action.{Outcome, ok, throw, settled, bind-eq-ok}
use ecommerce_microservice.Shared.Errors.{Error}
use ecommerce_microservice.Shared.Headers.{truthy}
use ecommerce_microservice.Shared.Logger.{LogLevel}
use ecommerce_microservice.Shared.Dtos.{CreateOrderRequest, CreateOrderResponse}
use ecommerce_microservice.Mongo.{Collection, CollectionLaws}
use ecommerce_microservice.Order.Model.{Order, same_order}
use ecommerce_microservice.Order.Repository.{
  OrderRepository, has_order_id, has_key, mongo_order_repository,
}
use ecommerce_microservice.Order.Dependencies.{
  OrderService, order_quantity, to_response, key_text, new_order, is_duplicate_key,
}
use ecommerce_microservice.Order.Service.{
  race_message, winner_or, winner_of, compensate_stock_release, recover, place_order,
}
use ecommerce_microservice.Order.Documents.{
  find_id-fresh, find_key-fresh, find-In, create_row, find_key_row,
}
use ecommerce_microservice.Order.Recorded.{Bystanders, Recorded, Written}
use ecommerce_microservice.Order.Recorded.Payment.{take_payment-Recorded}

key_text-some : (key : Option String) → truthy key ≡ true → key ≡ some (key_text key)
key_text-some none h = cc
key_text-some (some k) h = refl

pub throw-ne-ok :
    {W A : Type 0} {e : Error} {a : A} {w w' : W}
    → ¬ (◌≡◌ {A = Outcome A × W} (throw e, w) (ok a, w'))
throw-ne-ok h = cc

module _ {W : Type 0} {s : OrderService W} {orders : Collection W Order} {docs : W → List Order}
    (laws : CollectionLaws orders same_order docs) (by : Bystanders s docs)
    (stores : s.order_repo ≡ mongo_order_repository orders) where
  -- A new order that was created is there, by its id and by its key.
  created_Written :
      (request : CreateOrderRequest) (key : Option String) (id : String) (amount now : ℕ)
      (r : Order) (w w' : W)
      → s.order_repo.create (new_order request key id amount now) w ≡ (ok r, w')
      → Written key id (docs w')
  unfolding mongo_order_repository
  created_Written request key id amount now r w w' h =
      let o = new_order request key id amount now in
      let called = ap (λ (repo : OrderRepository W). repo.create o w) stores in
      let (same, added, fresh) = create_row laws o r w w' (sym called ∙ h) in
      let first : find (has_order_id id) (docs w ++ o ∷ []) ≡ some o =
        find-append_none (has_order_id id) (docs w) o (find_id-fresh o (docs w) fresh)
        ∙ rw (str_eq_refl id) in
      record {
        order = o;
        found = ap (find (has_order_id id)) added ∙ first;
        keyed = λ given.
            let k = key_text key in
            let keyed = key_text-some key given in
            let only : find (has_key k) (docs w ++ o ∷ []) ≡ some o =
              find-append_none (has_key k) (docs w) o (find_key-fresh o k (docs w) keyed fresh)
              ∙ rw (keyed, str_eq_refl k) in
            (o, ap (find (has_key k)) added ∙ only, refl);
      }

  pub existing_Recorded :
      (key : Option String) (existing : Order) (ds : List Order)
      → find (has_key (key_text key)) ds ≡ some existing
      → Recorded key ds (to_response existing)
  existing_Recorded key existing ds found = record {
    order = existing;
    stored = find-In (has_key (key_text key)) ds existing found;
    reported = refl;
    keyed = λ _. (existing, found, refl);
  }

  pub find_key-at :
      (k : String) (o : Option Order) (w w' : W)
      → s.order_repo.find_by_idempotency_key k w ≡ (ok o, w')
      → (o ≡ find (has_key k) (docs w)) × (docs w' ≡ docs w)
  unfolding mongo_order_repository
  find_key-at k o w w' h =
      let called = ap (λ (repo : OrderRepository W). repo.find_by_idempotency_key k w) stores in
      find_key_row laws k o w w' (sym called ∙ h)

  -- The branch of the lost race: the answer is the order that the key leads to.
  winner_or-Recorded :
      (key : Option String) (err : Error) (o : Option Order) (r : CreateOrderResponse) (w w' : W)
      → o ≡ find (has_key (key_text key)) (docs w)
      → winner_or s err o w ≡ (ok r, w')
      → Recorded key (docs w') r
  winner_or-Recorded key err none r w w' e h = cc
  winner_or-Recorded key err (some existing) r w w' e h =
      let logged = s.logger LogLevel.info race_message w in
      let same : to_response existing ≡ r = ground arith in
      let here : logged ≡ w' = ground arith in
      let kept = sym (ap docs here) ∙ by.logs LogLevel.info race_message w in
      subst (Recorded key (docs w')) same
        (existing_Recorded key existing (docs w') (ap (find (has_key (key_text key))) kept ∙ sym e))

  winner_of-Recorded :
      (b : Bool) (key : Option String) (err : Error) (r : CreateOrderResponse) (w w' : W)
      → winner_of s b key err w ≡ (ok r, w')
      → Recorded key (docs w') r
  winner_of-Recorded false key err r w w' h = cc
  winner_of-Recorded true key err r w w' h =
      let (o, u, called, rest) =
        bind-eq-ok (s.order_repo.find_by_idempotency_key (key_text key) w) (winner_or s err) h in
      let (found, kept) = find_key-at (key_text key) o w u called in
      winner_or-Recorded key err o r u w' (found ∙ sym (ap (find (has_key (key_text key))) kept))
        rest

  recover-Recorded :
      (request : CreateOrderRequest) (c key : Option String) (err : Error) (r : CreateOrderResponse)
      (w w' : W)
      → recover s request c key err w ≡ (ok r, w')
      → Recorded key (docs w') r
  unfolding recover
  recover-Recorded request c key err r w w' h =
      let (done, u, called, rest) =
        bind-eq-ok (compensate_stock_release s request.product_id c w)
          (λ _. winner_of s (is_duplicate_key key err) key err) h in
      winner_of-Recorded (is_duplicate_key key err) key err r u w' rest

  pub place_order-Recorded :
      (request : CreateOrderRequest) (c key : Option String) (amount : ℕ) (r : CreateOrderResponse)
      (w w' : W)
      → place_order s request c key amount w ≡ (ok r, w')
      → Recorded key (docs w') r
  unfolding place_order
  place_order-Recorded request c key amount r w w' h =
      elim (settled (s.product_client.reserve_stock request.product_id order_quantity c w)) [
        | inr (x, u, e) ↦ absurd (throw-ne-ok (rw e at h))
        | inl (done, u, e) ↦
            let (id, v) = s.uuid u in
            let (now, t) = s.now v in
            let order = new_order request key id amount now in
            let run = (rw e at h) in
            elim (settled (s.order_repo.create order t)) [
              | inl (saved, z, f) ↦
                  take_payment-Recorded laws by stores request c key id amount saved r z w'
                    (created_Written request key id amount now saved t z f) (rw f at run)
              | inr (x, z, f) ↦ recover-Recorded request c key x r z w' (rw f at run)
            ]
      ]
