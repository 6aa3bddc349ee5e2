-- ===== src/Order/Accepted.antt =====
-- When the last part of a checkout reports the status confirmed: after a payment that was accepted.
use ecommerce_microservice.Prelude.{
  ℕ, String, ◌≡◌, ◌≢◌, refl, sym, ap, ◌∙◌, ◌⊎◌, inl, inr, true, false, Bool, Bool-cases, Option,
  none, some, Option-cases, List, find, find_sound, str_eq_iff,
}
use ecommerce_microservice.Shared.Errors.{is_upstream}
use ecommerce_microservice.Shared.Action.{ok, pure, settled, bind-eq-ok, ok-eq, ◌>>=◌}
use ecommerce_microservice.Shared.Logger.{LogLevel}
use ecommerce_microservice.Shared.Topology.{retry_exchange, retry_routing_key}
use ecommerce_microservice.Shared.Dtos.{
  OrderStatus, confirmed, payment_pending, stock_reserved, CreateOrderRequest, CreateOrderResponse,
  InitiatePaymentRequest, InitiatePaymentResponse, UpdateOrderPaymentStatusRequest,
}
use ecommerce_microservice.Mongo.{Collection, CollectionLaws, map_option}
use ecommerce_microservice.Order.Model.{Order, same_order}
use ecommerce_microservice.Order.Repository.{
  OrderRepository, has_order_id, set_status, mongo_order_repository,
}
use ecommerce_microservice.Order.Dependencies.{
  OrderService, or_saved, payload_of, pending_update, confirmed_update, retry_event, to_response,
}
use ecommerce_microservice.Order.Service.{
  degrade_message, queue_for_retry, try_initiate_payment, confirm_if, take_payment,
}
use ecommerce_microservice.Order.Documents.{update_row}

-- A payment of the payload that the payment client reported as accepted, and that left the world as
-- `after`.
pub record Accepted {W : Type 0} (s : OrderService W) (payload : InitiatePaymentRequest)
    (c : Option String) (after : W) : Type 0 where
  pub answer : InitiatePaymentResponse
  pub before : W
  pub paid : s.payment_client.initiate_payment payload c before ≡ (ok answer, after)

module _ {W : Type 0} (s : OrderService W) where
  queue_for_retry-false :
      (p : InitiatePaymentRequest) (c : Option String) (w v : W)
      → ¬ (queue_for_retry s p c w ≡ (ok true, v))
  unfolding queue_for_retry
  queue_for_retry-false p c w v h =
      let (now, u) = s.now (s.logger LogLevel.warn degrade_message w) in
      elim (settled (s.publish retry_exchange retry_routing_key (retry_event p now) c u)) [
        | inl (b, x, e) ↦ let bad = (rw e at h) in cc
        | inr (y, x, e) ↦ let bad = (rw e at h) in cc
      ]

  try_initiate_payment-Accepted :
      (p : InitiatePaymentRequest) (c : Option String) (w v : W)
      → try_initiate_payment s p c w ≡ (ok true, v)
      → Accepted s p c v
  unfolding try_initiate_payment
  try_initiate_payment-Accepted p c w v h =
      elim (settled (s.payment_client.initiate_payment p c w)) [
        | inl (a, u, e) ↦
            let (_, same) = ok-eq (rw e at h) in
            record { answer = a; before = w; paid = e ∙ ap (λ x. (ok a, x)) same }
        | inr (x, u, e) ↦ elim (Bool-cases (is_upstream x)) [
          | inl upstream ↦ absurd (queue_for_retry-false p c u v (rw (e, upstream) at h))
          | inr other ↦ absurd (let bad = (rw (e, other) at h) in cc)
        ]
      ]

  module _ {orders : Collection W Order} {docs : W → List Order}
      (laws : CollectionLaws orders same_order docs)
      (stores : s.order_repo ≡ mongo_order_repository orders) where
    -- What is saved after a status update, by what was saved before.
    update_saved :
        (id : String) (u : UpdateOrderPaymentStatusRequest) (r : Option Order) (w w' : W)
        (o : Order)
        → s.order_repo.update_payment_status id u w ≡ (ok r, w')
        → o.order_id ≡ id
        → ((or_saved r o).order_id ≡ id)
          × (((or_saved r o).order_status ≡ u.order_status)
              ⊎ ((or_saved r o).order_status ≡ o.order_status))
    unfolding mongo_order_repository
    update_saved id u r w w' o h named =
        let called = ap (λ (repo : OrderRepository W). repo.update_payment_status id u w) stores in
        let (found, changed) = update_row laws id u r w w' (sym called ∙ h) in
        elim (Option-cases (find (has_order_id id) (docs w))) [
          | inl missing ↦
              let none_r : r ≡ none = found ∙ ap (map_option (set_status u)) missing in
              rw none_r (named, inr refl)
          | inr (d, there) ↦
              let some_r : r ≡ some (set_status u d) =
                found ∙ ap (map_option (set_status u)) there in
              let same : d.order_id ≡ id =
                (str_eq_iff d.order_id id).0 (find_sound (has_order_id id) (docs w) there) in
              rw some_r (same, inl refl)
        ]

    -- An answer is confirmed only by the second update, which follows an accepted payment.
    confirm_if-confirmed :
        (b : Bool) (id : String) (o : Order) (r : CreateOrderResponse) (w w' : W)
        → confirm_if s b id o w ≡ (ok r, w')
        → o.order_id ≡ id
        → o.order_status ≢ confirmed
        → r.order_status ≡ confirmed
        → (b ≡ true)
          × (r.order_id ≡ id)
          × ((updated : Option Order) × (s.order_repo.update_payment_status id confirmed_update w
                ≡ (ok updated, w')))
    confirm_if-confirmed false id o r w w' h named other is_confirmed =
        let (same, world) = ok-eq h in
        absurd (other (ap (λ (q : CreateOrderResponse). q.order_status) same ∙ is_confirmed))
    confirm_if-confirmed true id o r w w' h named other is_confirmed =
        let (updated, u, called, rest) =
          bind-eq-ok (s.order_repo.update_payment_status id confirmed_update w)
            (λ updated. pure (to_response (or_saved updated o))) h in
        let (same, world) = ok-eq rest in
        let (kept, status) = update_saved id confirmed_update updated w u o called named in
        (
          refl,
          ap (λ (q : CreateOrderResponse). q.order_id) (sym same) ∙ kept,
          (updated, called ∙ ap (λ x. (ok updated, x)) world),
        )

    pending-unconfirmed :
        (t a b : OrderStatus) → (t ≡ a) ⊎ (t ≡ b) → a ≢ confirmed → b ≢ confirmed → t ≢ confirmed
    pending-unconfirmed t a b (inl e) p q h = p (sym e ∙ h)
    pending-unconfirmed t a b (inr e) p q h = q (sym e ∙ h)
        -- The last steps of a run that ends in `w'`: the payment was accepted, and the order of the payload

    -- was marked as confirmed right after it.
    abbrev pub Ended : InitiatePaymentRequest → Option String → W → Type 0
    Ended payload c w' =
        (v : W) × (updated : Option Order) × Accepted s payload c v
        × (s.order_repo.update_payment_status payload.order_id confirmed_update v
            ≡ (ok updated, w'))

    pub take_payment-Accepted :
        (request : CreateOrderRequest) (c : Option String) (id : String) (amount : ℕ)
        (saved : Order) (r : CreateOrderResponse) (w w' : W)
        → take_payment s request c id amount saved w ≡ (ok r, w')
        → saved.order_id ≡ id
        → saved.order_status ≡ stock_reserved
        → r.order_status ≡ confirmed
        → Ended (payload_of request id amount) c w' × (r.order_id ≡ id)
    unfolding take_payment
    take_payment-Accepted request c id amount saved r w w' h named reserved is_confirmed =
        let payload = payload_of request id amount in
        let (pending, u, called, rest) =
          bind-eq-ok (s.order_repo.update_payment_status id pending_update w)
            (λ pending.
              try_initiate_payment s payload c >>= λ b. confirm_if s b id (or_saved pending saved))
            h in
        let (named', status) = update_saved id pending_update pending w u saved called named in
        let (b, v, tried, answered) =
          bind-eq-ok (try_initiate_payment s payload c u)
            (λ b. confirm_if s b id (or_saved pending saved)) rest in
        let other : (or_saved pending saved).order_status ≢ confirmed =
          pending-unconfirmed _ payment_pending saved.order_status status (λ e. cc)
            (λ e. let bad = sym reserved ∙ e in cc) in
        let (paid, same, (updated, marked)) =
          confirm_if-confirmed b id (or_saved pending saved) r v w' answered named' other
            is_confirmed in
        (
          (
            v,
            updated,
            try_initiate_payment-Accepted payload c u v (tried ∙ ap (λ (t : Bool). (ok t, v)) paid),
            marked,
          ),
          same,
        )
