-- ===== src/Order/LostAnswers.antt =====
-- A reservation over HTTP whose answers are lost on the way back.
use ecommerce_microservice.Prelude.{
  ℕ, zero, suc, ◌+◌, ◌*◌, ◌≤◌, String, ◌≡◌, ◌∙◌, false, Option, List, arith,
}
use ecommerce_microservice.Prelude.Int.{pos, ◌+ℤ◌, int_laws}
use ecommerce_microservice.Shared.Errors.{Error}
use ecommerce_microservice.Shared.Action.{ok, throw, Action}
use ecommerce_microservice.Shared.HttpClient.{
  HttpClient, Transport, is_client_error, back_off, execute_with_retry, call,
}
use ecommerce_microservice.Shared.HttpClient.Retry.{Retried, execute_with_retry-ok}
use ecommerce_microservice.Mongo.{Collection, CollectionLaws}
use ecommerce_microservice.Product.Model.{Product, same_product_id}
use ecommerce_microservice.Product.Repository.{has_stock, mongo_product_repository}
use ecommerce_microservice.Product.Service.{reserve_stock}
use ecommerce_microservice.Product.Stock.{reserve_stock-ok}
use ecommerce_microservice.Product.Sharing.{total_stock, total-take}
use ecommerce_microservice.Order.Clients
use ecommerce_microservice.Order.Clients.{StockMutation}
use ecommerce_microservice.Order.Degradation.{reserve_request}

module _ {W T : Type 0} (http : HttpClient W) (t : Transport W StockMutation T)
    (products : Collection W Product) (id : String) (q : ℕ) (c : Option String) where
  -- What the product service does with the request.
  abbrev pub serves : Action W Product
  serves = reserve_stock (mongo_product_repository products) id q

  -- One attempt of the client.
  abbrev pub attempt : Action W T
  attempt = t.send (reserve_request http id q c)

  -- `n` attempts that the product service granted, but whose answers did not come back.
  pub data Lost (w : W) : ℕ → W → Type 0 where
    start : Lost w 0 w
    again :
        {n : ℕ} {u v : W} (p : Product) (e : Error)
        → Lost w n u
        → serves u ≡ (ok p, v)
        → attempt u ≡ (throw e, v)
        → is_client_error e ≡ false
        → Lost w (suc n) (back_off http n v)

  Lost-Retried : {w : W} (n : ℕ) {u : W} → Lost w n u → Retried http attempt w n u
  Lost-Retried zero start = Retried.start
  Lost-Retried (suc n) (again p e l served failed passing) =
      Retried.again e (Lost-Retried n l) failed passing

  module _ {docs : W → List Product} (laws : CollectionLaws products same_product_id docs)
      (pauses : (n : ℕ) (w : W) → docs (back_off http n w) ≡ docs w) where
    serves-takes :
        (w v : W) (p : Product)
        → serves w ≡ (ok p, v)
        → total_stock (docs v) +ℤ pos q ≡ total_stock (docs w)
    serves-takes w v p served =
        let (d, there, taken, changed) = reserve_stock-ok laws id q w v p served in
        rw changed (total-take (has_stock id q) q (docs w) d there)

    Lost-takes :
        {w : W} (n : ℕ) {u : W}
        → Lost w n u
        → total_stock (docs u) +ℤ pos (n * q) ≡ total_stock (docs w)
    Lost-takes zero start = omega int_laws
    Lost-takes (suc n) (again {u} {v} p e l served failed passing) =
        let before = Lost-takes n l in
        let taken = serves-takes u v p served in
        let kept = pauses n v in
        let more : suc n * q ≡ n * q + q = omega arith in rw (kept, more) (grind int_laws)

    -- `n` reservations that the product service granted and whose answers were lost, and then one that
    -- is answered: the client's call succeeds, and in all it took `n + 1` times the quantity from the
    -- stock.
    pub reserve_stock-repeats :
        (n : ℕ) (w u v : W) (p : Product) (a : T)
        → n ≤ http.max_retries
        → ((m : Action W T) (x : W) → t.fire m x ≡ m x)
        → Lost w n u
        → serves u ≡ (ok p, v)
        → attempt u ≡ (ok a, v)
        → (Clients.reserve_stock http t id q c w ≡ (ok tt, v))
          × (total_stock (docs v) +ℤ pos ((n + 1) * q) ≡ total_stock (docs w))
    unfolding Clients.reserve_stock call
    reserve_stock-repeats n w u v p a enough closed lost served answered =
        let ended = execute_with_retry-ok http attempt n a (Lost-Retried n lost) enough answered in
        let through = closed (execute_with_retry http attempt) w ∙ ended in
        let before = Lost-takes n lost in
        let taken = serves-takes u v p served in
        let more : (n + 1) * q ≡ n * q + q = omega arith in (rw through, rw more (grind int_laws))
