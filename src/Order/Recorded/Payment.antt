-- ===== src/Order/Recorded/Payment.antt =====
-- From the first status update to the answer.
use ecommerce_microservice.Prelude.{
  ℕ, String, ◌≡◌, refl, ap, sym, subst, ◌∙◌, true, false, Bool, Option, some, List, arith, find,
  find_sound, str_eq_iff,
}
use ecommerce_microservice.Shared.Action.{Outcome, ok, pure, bind-eq-ok, ◌>>=◌}
use ecommerce_microservice.Shared.Dtos.{
  CreateOrderRequest, CreateOrderResponse, UpdateOrderPaymentStatusRequest,
}
use ecommerce_microservice.Mongo.{Collection, CollectionLaws, map_option}
use ecommerce_microservice.Order.Model.{Order, same_order}
use ecommerce_microservice.Order.Repository.{
  OrderRepository, has_order_id, has_key, set_status, mongo_order_repository,
}
use ecommerce_microservice.Order.Dependencies.{
  OrderService, to_response, key_text, or_saved, payload_of, pending_update, confirmed_update,
}
use ecommerce_microservice.Order.Service.{try_initiate_payment, confirm_if, take_payment}
use ecommerce_microservice.Order.Quiet.{try_initiate_payment-Leaves}
use ecommerce_microservice.Order.Documents.{
  In, find-In_updated, find-set_status, find_key-set_status, update_row,
}
use ecommerce_microservice.Order.Recorded.{Bystanders, Recorded, Written}

module _ {W : Type 0} {s : OrderService W} {orders : Collection W Order} {docs : W → List Order}
    (laws : CollectionLaws orders same_order docs) (by : Bystanders s docs)
    (stores : s.order_repo ≡ mongo_order_repository orders) where
  update_found :
      (key : Option String) (id : String) (u : UpdateOrderPaymentStatusRequest) (r : Option Order)
      (w w' : W)
      → Written key id (docs w)
      → s.order_repo.update_payment_status id u w ≡ (ok r, w')
      → (o : Order) × (r ≡ some o) × In o (docs w') × (o.order_id ≡ id) × Written key id (docs w')
  unfolding mongo_order_repository
  update_found key id u r w w' wr h =
      let called = ap (λ (repo : OrderRepository W). repo.update_payment_status id u w) stores in
      let (found, changed) = update_row laws id u r w w' (sym called ∙ h) in
      let o = set_status u wr.order in
      let named =
        (str_eq_iff wr.order.order_id id).0 (find_sound (has_order_id id) (docs w) wr.found) in
      (
        o,
        found ∙ ap (map_option (set_status u)) wr.found,
        subst (In o) (sym changed)
            (find-In_updated (has_order_id id) (set_status u) (docs w) wr.order wr.found),
        named,
        record {
          order = o;
          found =
              ap (find (has_order_id id)) changed
              ∙ find-set_status u id (docs w)
              ∙ ap (map_option (set_status u)) wr.found;
          keyed = λ given.
              let (p, there, same) = wr.keyed given in
              let (q, still, kept) = find_key-set_status u (key_text key) id (docs w) p there in
              (q, ap (find (has_key (key_text key))) changed ∙ still, kept ∙ same);
        },
      )

  -- An order that was written is reported as it is stored.
  Recorded-of :
      (key : Option String) (id : String) (o : Order) (ds : List Order)
      → In o ds
      → o.order_id ≡ id
      → Written key id ds
      → Recorded key ds (to_response o)
  Recorded-of key id o ds stored named wr = record {
    order = o;
    stored = stored;
    reported = refl;
    keyed = λ given. let (p, there, same) = wr.keyed given in (p, there, same ∙ sym named);
  }

  confirm_if-Recorded :
      (b : Bool) (key : Option String) (id : String) (o : Order) (r : CreateOrderResponse)
      (w w' : W)
      → Written key id (docs w)
      → In o (docs w)
      → o.order_id ≡ id
      → confirm_if s b id o w ≡ (ok r, w')
      → Recorded key (docs w') r
  confirm_if-Recorded false key id o r w w' wr stored named h =
      let same : to_response o ≡ r = ground arith in
      let here : w ≡ w' = ground arith in
      subst (Recorded key (docs w')) same (
        subst (λ v. Recorded key (docs v) (to_response o)) here
          (Recorded-of key id o (docs w) stored named wr))
  confirm_if-Recorded true key id o r w w' wr stored named h =
      let (updated, u, called, answered) =
        bind-eq-ok (s.order_repo.update_payment_status id confirmed_update w)
          (λ updated. pure (to_response (or_saved updated o))) h in
      let (p, is_p, in_p, named_p, wr') =
        update_found key id confirmed_update updated w u wr called in
      let same : to_response p ≡ r = ground arith in
      let here : u ≡ w' = ground arith in
      subst (Recorded key (docs w')) same (
        subst (λ v. Recorded key (docs v) (to_response p)) here
          (Recorded-of key id p (docs u) in_p named_p wr'))

  pub take_payment-Recorded :
      (request : CreateOrderRequest) (c key : Option String) (id : String) (amount : ℕ) (o : Order)
      (r : CreateOrderResponse) (w w' : W)
      → Written key id (docs w)
      → take_payment s request c id amount o w ≡ (ok r, w')
      → Recorded key (docs w') r
  unfolding take_payment
  take_payment-Recorded request c key id amount o r w w' wr h =
      let payload = payload_of request id amount in
      let (pending, u, called, rest) =
        bind-eq-ok (s.order_repo.update_payment_status id pending_update w)
          (λ pending.
            try_initiate_payment s payload c >>= λ b. confirm_if s b id (or_saved pending o))
          h in
      let (p, is_p, in_p, named, wr') = update_found key id pending_update pending w u wr called in
      let (b, v, tried, confirmed) =
        bind-eq-ok (try_initiate_payment s payload c u)
          (λ b. confirm_if s b id (or_saved pending o)) rest in
      let same : docs v ≡ docs u =
        sym (ap (λ (q : Outcome Bool × W). docs q.1) tried)
        ∙ try_initiate_payment-Leaves by.quiet payload c u in
      let chosen : confirm_if s b id p v ≡ (ok r, w') =
        sym (ap (λ q. confirm_if s b id (or_saved q o) v) is_p) ∙ confirmed in
      confirm_if-Recorded b key id p r v w' (subst (Written key id) (sym same) wr')
        (subst (In p) (sym same) in_p) named chosen
