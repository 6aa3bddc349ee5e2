-- ===== src/Order/Ledger.antt =====
-- Reserved stock against orders: an interface that says what each dependency does to the two
-- counts, and that no run of a checkout leaves a reserved unit without an order.
pub mod Conservation
use ecommerce_microservice.Prelude.{
  ℕ, ◌+◌, ◌≤◌, String, ◌≡◌, refl, ◌⊎◌, inl, inr, ◌∙◌, true, false, Bool, Bool-cases, Option, none,
  some, arith,
}
use ecommerce_microservice.Prelude.Int.{ℤ, pos, ◌+ℤ◌, ◌-ℤ◌}
use ecommerce_microservice.Shared.Errors.{Error, is_upstream}
use ecommerce_microservice.Shared.Action.{Outcome, ok, throw, Action, settled}
use ecommerce_microservice.Shared.Logger.{LogLevel}
use ecommerce_microservice.Shared.Headers.{truthy}
use ecommerce_microservice.Shared.Topology.{retry_exchange, retry_routing_key}
use ecommerce_microservice.Shared.Dtos.{
  CreateOrderRequest, CreateOrderResponse, InitiatePaymentRequest, PaymentRetryRequestedEvent,
  UpdateOrderPaymentStatusRequest,
}
use ecommerce_microservice.Order.Model.{Order}
use ecommerce_microservice.Order.Quiet.{Quiet}
use ecommerce_microservice.Shared.Leaves.{Leaves}
use ecommerce_microservice.Order.Dependencies.{OrderService, order_quantity, key_text}

-- Units on the shelves of the product service, and orders written.
pub record Counts : Type 0 where
  pub stock : ℤ
  pub orders : ℕ

-- From `c` to `d`, as many units left the shelves as orders were written.
abbrev pub IsBalanced : Counts → Counts → Type 0
IsBalanced c d = d.stock +ℤ pos d.orders ≡ c.stock +ℤ pos c.orders

abbrev pub after_reserve : Outcome (Unit {0}) → Counts → Counts
after_reserve (ok _) c = record c { stock = c.stock -ℤ pos order_quantity }
after_reserve (throw _) c = c

abbrev pub after_create : Outcome Order → Counts → Counts
after_create (ok _) c = record c { orders = c.orders + 1 }
after_create (throw _) c = c

abbrev pub IfOk : {A : Type 0} → Outcome A → Type 0 → Type 0
IfOk (ok _) P = P
IfOk (throw _) P = Unit

-- What the dependencies do for a product, when no call loses its answer: `remote_ledger` of
-- Order/RemoteLedger.antt proves it of MongoDB and of the product service over a network that loses none.
-- A reservation that throws takes nothing, and a creation
-- that throws wrote nothing. A reservation that succeeds makes the product one that can be released,
-- `Known`, and a release of a known product succeeds, and puts the unit back.
pub record LedgerLaws {W : Type 0} (s : OrderService W) (id : String) (counts : W → Counts)
    (Known : W → Type 0) : Type 0 where
  pub quiet : Quiet s counts
  pub open quiet use *
  pub reserves :
      (c : Option String) (w : W)
      → let (r, w') = s.product_client.reserve_stock id order_quantity c w in
        (counts w' ≡ after_reserve r (counts w)) × IfOk r (Known w')
  pub releases :
      (c : Option String) (w : W)
      → Known w
      → (w' : W) × (s.product_client.release_stock id order_quantity c w ≡ (ok tt, w'))
        × (counts w' ≡ record (counts w) { stock = (counts w).stock +ℤ pos order_quantity })
  pub creates :
      (o : Order) (w : W)
      → let (r, w') = s.order_repo.create o w in counts w' ≡ after_create r (counts w)
  pub finds_key : (k : String) → Leaves counts (s.order_repo.find_by_idempotency_key k)
  pub updates :
      (id : String) (u : UpdateOrderPaymentStatusRequest)
      → Leaves counts (s.order_repo.update_payment_status id u)
  pub known_after_uuid : (w : W) → Known w → Known (s.uuid w).1
  pub known_after_now : (w : W) → Known w → Known (s.now w).1
  pub known_after_create : (o : Order) (w : W) → Known w → Known (s.order_repo.create o w).1
