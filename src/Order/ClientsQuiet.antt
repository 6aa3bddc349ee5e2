-- ===== src/Order/ClientsQuiet.antt =====
-- The two stock calls of the order service's client leave alone what their requests leave alone.
use ecommerce_microservice.Prelude.{ℕ, String, ◌≡◌, refl, inl, inr, Bool-cases, Option, []}
use ecommerce_microservice.Shared.Errors.{◌++ˢ◌}
use ecommerce_microservice.Shared.Action.{Action, pure, settled, ◌>>=◌}
use ecommerce_microservice.Shared.Leaves.{Leaves, LeavesLogging, Leaves-bind}
use ecommerce_microservice.Shared.HttpClient.{HttpClient, HttpRequest, Transport, Method, call}
use ecommerce_microservice.Shared.HttpClient.Quiet.{call-Leaves}
use ecommerce_microservice.Order.Clients.{StockMutation, is_conflict, reserve_stock, release_stock}

module _ {W X T : Type 0} (view : W → X) (http : HttpClient W) (t : Transport W StockMutation T)
    (logs : LeavesLogging view http.logger)
    (waits : (n : ℕ) (w : W) → view (http.wait n w) ≡ view w)
    (closed : (m : Action W T) (w : W) → t.fire m w ≡ m w)
    (sends : (r : HttpRequest StockMutation) → Leaves view (t.send r)) where
  mutation-Leaves :
      (path : String) (q : ℕ) (c : Option String)
      → Leaves view (
          call Method.patch http t path (record { quantity = q }) c [] >>= λ _.
          pure {A = Unit {0}} tt)
  mutation-Leaves path q c =
      Leaves-bind view (call Method.patch http t path (record { quantity = q }) c []) _
        (call-Leaves view http logs waits t closed sends Method.patch path (record { quantity = q })
          c [])
        (λ a w. refl)

  pub release_stock-Leaves :
      (id : String) (q : ℕ) (c : Option String) → Leaves view (release_stock http t id q c)
  unfolding release_stock
  release_stock-Leaves id q c = mutation-Leaves ("/products/" ++ˢ id ++ˢ "/release") q c

  pub reserve_stock-Leaves :
      (id : String) (q : ℕ) (c : Option String) → Leaves view (reserve_stock http t id q c)
  unfolding reserve_stock
  reserve_stock-Leaves id q c w =
      let path = "/products/" ++ˢ id ++ˢ "/reserve" in
      let run : Action W (Unit {0}) =
        call Method.patch http t path (record { quantity = q }) c [] >>= λ _. pure tt in
      let same = mutation-Leaves path q c w in
      elim (settled (run w)) [
        | inl (done, u, e) ↦ rw e (rw e at same)
        | inr (x, u, e) ↦ elim (Bool-cases (is_conflict x)) [
          | inl conflict ↦ rw (e, conflict) (rw e at same)
          | inr other ↦ rw (e, other) (rw e at same)
        ]
      ]
