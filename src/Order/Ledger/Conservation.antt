-- ===== src/Order/Ledger/Conservation.antt =====
-- No run of a checkout leaves a reserved unit without an order: the proof, along
-- order-service/src/services/OrderService.ts.
use ecommerce_microservice.Prelude.{
  ℕ, String, ◌≡◌, refl, subst, inl, inr, ◌∙◌, true, false, Bool, Bool-cases, Option, none, some,
}
use ecommerce_microservice.Shared.Errors.{Error}
use ecommerce_microservice.Shared.Action.{pure, settled, on_settled, ◌>>=◌}
use ecommerce_microservice.Shared.Logger.{LogLevel}
use ecommerce_microservice.Shared.Headers.{truthy}
use ecommerce_microservice.Shared.Dtos.{CreateOrderRequest}
use ecommerce_microservice.Order.Model.{Order}
use ecommerce_microservice.Order.Dependencies.{
  OrderService, order_quantity, key_text, confirmed_update, pending_update, to_response, or_saved,
  payload_of, is_duplicate_key, is_mismatch, new_order,
}
use ecommerce_microservice.Order.Service.{
  race_message, replay_message, try_initiate_payment, confirm_if, take_payment,
  compensate_stock_release, winner_of, winner_or, recover, warn_mismatch, place_order, checkout,
  replay_or, create_order,
}
use ecommerce_microservice.Order.Quiet.{try_initiate_payment-Leaves, warn_mismatch-Leaves}
use ecommerce_microservice.Shared.Leaves.{Leaves, Leaves-bind}
use ecommerce_microservice.Prelude.Int.{pos, ◌+ℤ◌, ◌-ℤ◌, int_laws}
use ecommerce_microservice.Order.Ledger.{Counts, IsBalanced, LedgerLaws}

-- A run whose first part leaves the counts alone is balanced if the rest is.
IsBalanced-after : {c d : Counts} (e : Counts) → d ≡ c → IsBalanced d e → IsBalanced c e
IsBalanced-after e same run = subst (λ k. IsBalanced k e) same run

module _ {W : Type 0} {s : OrderService W} {counts : W → Counts} {Known : W → Type 0}
    {product_id : String} (laws : LedgerLaws s product_id counts Known) where
  confirm_if-Leaves : (b : Bool) (id : String) (o : Order) → Leaves counts (confirm_if s b id o)
  confirm_if-Leaves false id o w = refl
  confirm_if-Leaves true id o w =
      Leaves-bind counts (s.order_repo.update_payment_status id confirmed_update)
        (λ updated. pure (to_response (or_saved updated o))) (laws.updates id confirmed_update)
        (λ _ _. refl) w

  take_payment-Leaves :
      (r : CreateOrderRequest) (c : Option String) (id : String) (amount : ℕ) (o : Order)
      → Leaves counts (take_payment s r c id amount o)
  unfolding take_payment
  take_payment-Leaves r c id amount o w =
      Leaves-bind counts (s.order_repo.update_payment_status id pending_update)
        (λ pending. try_initiate_payment s (payload_of r id amount) c >>= λ initiated.
          confirm_if s initiated id (or_saved pending o))
        (laws.updates id pending_update)
        (λ pending.
          Leaves-bind counts (try_initiate_payment s (payload_of r id amount) c)
            (λ initiated. confirm_if s initiated id (or_saved pending o))
            (try_initiate_payment-Leaves laws.quiet (payload_of r id amount) c)
            (λ initiated. confirm_if-Leaves initiated id (or_saved pending o)))
        w

  winner_or-Leaves : (err : Error) (o : Option Order) → Leaves counts (winner_or s err o)
  winner_or-Leaves err none w = refl
  winner_or-Leaves err (some existing) w = laws.logs LogLevel.info race_message w

  winner_of-Leaves :
      (b : Bool) (key : Option String) (err : Error) → Leaves counts (winner_of s b key err)
  winner_of-Leaves false key err w = refl
  winner_of-Leaves true key err w =
      Leaves-bind counts (s.order_repo.find_by_idempotency_key (key_text key)) (winner_or s err)
        (laws.finds_key (key_text key)) (winner_or-Leaves err) w

module _ {W : Type 0} {s : OrderService W} {counts : W → Counts} {Known : W → Type 0}
    (r : CreateOrderRequest) (laws : LedgerLaws s r.product_id counts Known) where
  -- The unit that was reserved for the order that could not be written goes back.
  recover-releases :
      (c key : Option String) (err : Error) (w : W)
      → Known w
      → counts (recover s r c key err w).1
        ≡ record (counts w) { stock = (counts w).stock +ℤ pos order_quantity }
  unfolding recover compensate_stock_release
  recover-releases c key err w known =
      let (u, released, back) = laws.releases c w known in
      rw released (winner_of-Leaves laws (is_duplicate_key key err) key err u ∙ back)

  -- From the creation on: one order more, or one unit back.
  settle-IsBalanced :
      (c key : Option String) (id : String) (amount now : ℕ) (b : Counts) (w : W)
      → counts w ≡ record b { stock = b.stock -ℤ pos order_quantity }
      → Known w
      → IsBalanced b (
          counts
            (on_settled
              (s.order_repo.create (new_order r key id amount now) w)
              (take_payment s r c id amount)
              (recover s r c key)).1)
  settle-IsBalanced c key id amount now b w taken known =
      let order = new_order r key id amount now in
      let made = laws.creates order w in
      let kept = laws.known_after_create order w known in
      elim (settled (s.order_repo.create order w)) [
        | inl (saved, z, f) ↦
            let written = (rw f at made) in
            rw (f, take_payment-Leaves laws r c id amount saved z, written, taken) (omega int_laws)
        | inr (x, z, f) ↦
            let unwritten = (rw f at made) in
            let back = recover-releases c key x z (rw f at kept) in
            rw (f, back, unwritten, taken) (omega int_laws)
      ]

  -- From the reservation on: one unit less and one order more, or neither.
  place_order-IsBalanced :
      (c key : Option String) (amount : ℕ) (w : W)
      → IsBalanced (counts w) (counts (place_order s r c key amount w).1)
  unfolding place_order
  place_order-IsBalanced c key amount w =
      let reserved = laws.reserves c w in
      elim (settled (s.product_client.reserve_stock r.product_id order_quantity c w)) [
        | inr (x, u, e) ↦ let (same, none_known) = (rw e at reserved) in rw (e, same) refl
        | inl (done, u, e) ↦
            let (taken, known) = (rw e at reserved) in
            let (id, v) = s.uuid u in
            let (now, t) = s.now v in
            let known' = laws.known_after_now v (laws.known_after_uuid u known) in
            rw e (
              settle-IsBalanced c key id amount now (counts w) t
                (laws.draws_now v ∙ laws.draws_uuid u ∙ taken) known')
      ]

  checkout-IsBalanced :
      (c key : Option String) (w : W) → IsBalanced (counts w) (counts (checkout s r c key w).1)
  unfolding checkout
  checkout-IsBalanced c key w =
      let asked = laws.asks_customer r.customer_id c w in
      elim (settled (s.customer_client.get_customer r.customer_id c w)) [
        | inr (x, u, e) ↦ let same = (rw e at asked) in rw (e, same) refl
        | inl (customer, u, e) ↦
            let same = (rw e at asked) in
            let priced = laws.asks_product r.product_id c u in
            elim (settled (s.product_client.get_product r.product_id c u)) [
              | inr (x, v, f) ↦ let kept = (rw f at priced) in rw (e, f, kept, same) refl
              | inl (p, v, f) ↦
                  let kept = (rw f at priced) in
                  let warned = warn_mismatch-Leaves laws.quiet (is_mismatch r.amount p.price) v in
                  elim (settled (warn_mismatch s (is_mismatch r.amount p.price) v)) [
                    | inr (x, z, g) ↦
                        let still = (rw g at warned) in rw (e, f, g, still, kept, same) refl
                    | inl (done, z, g) ↦
                        let still = (rw g at warned) in
                        rw (e, f, g)
                          (IsBalanced-after (counts (place_order s r c key p.price z).1)
                            (still ∙ kept ∙ same) (place_order-IsBalanced c key p.price z))
                  ]
            ]
      ]

  replay_or-IsBalanced :
      (c key : Option String) (o : Option Order) (w : W)
      → IsBalanced (counts w) (counts (replay_or s r c key o w).1)
  replay_or-IsBalanced c key none w = checkout-IsBalanced c key w
  replay_or-IsBalanced c key (some existing) w = rw (laws.logs LogLevel.info replay_message w) refl

  -- Whatever a request comes to, an answer, a replay, a refusal or an exception at any step, as many
  -- units leave the shelves as orders are written, if the dependencies do what `LedgerLaws` asks: no
  -- reservation, release or creation loses its answer.
  pub create_order-IsBalanced :
      (c key : Option String) (w : W) → IsBalanced (counts w) (counts (create_order s r c key w).1)
  unfolding create_order
  create_order-IsBalanced c key w = elim (Bool-cases (truthy key)) [
    | inr keyless ↦ rw keyless (checkout-IsBalanced c key w)
    | inl keyed ↦
        let found = laws.finds_key (key_text key) w in
        elim (settled (s.order_repo.find_by_idempotency_key (key_text key) w)) [
          | inr (x, u, e) ↦ let same = (rw e at found) in rw (keyed, e, same) refl
          | inl (o, u, e) ↦
              let same = (rw e at found) in
              rw (keyed, e)
                (IsBalanced-after (counts (replay_or s r c key o u).1) same
                  (replay_or-IsBalanced c key o u))
        ]
  ]
