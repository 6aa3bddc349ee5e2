-- ===== src/Order/RemoteLedger.antt =====
-- The order service over MongoDB and over the product service's two stock routes: what the ledger asks of
-- the dependencies, from what the two services do.
use ecommerce_microservice.Prelude.{
  ℕ, ◌+◌, String, ◌≡◌, refl, sym, ap, subst, ◌∙◌, inl, inr, Bool, Option, List, [], ◌∷◌, find,
  length, length-append, length-update_first,
}
use ecommerce_microservice.Prelude.Int.{pos, ◌+ℤ◌}
use ecommerce_microservice.Shared.Errors.{Error}
use ecommerce_microservice.Shared.Action.{Outcome, ok, throw, Action, settled}
use ecommerce_microservice.Shared.Dtos.{
  ApiSuccessResponse, CreateOrderRequest, UpdateOrderPaymentStatusRequest,
}
use ecommerce_microservice.Shared.Leaves.{Leaves, LeavesLogging, Leaves-bind}
use ecommerce_microservice.Shared.HttpClient.{HttpClient, HttpRequest, Transport}
use ecommerce_microservice.Mongo.{Collection, CollectionLaws, Atomic}
use ecommerce_microservice.Product.Model.{Product}
use ecommerce_microservice.Product.Repository.{has_id}
use ecommerce_microservice.Product.Sharing.{total_stock}
use ecommerce_microservice.Order.Clients
use ecommerce_microservice.Order.ClientsQuiet.{reserve_stock-Leaves, release_stock-Leaves}
use ecommerce_microservice.Order.Clients.{StockMutation}
use ecommerce_microservice.Order.Model.{Order, same_order}
use ecommerce_microservice.Order.Repository
use ecommerce_microservice.Order.Repository.{
  OrderRepository, has_key, has_order_id, set_status, mongo_order_repository,
}
use ecommerce_microservice.Order.Dependencies.{OrderService, order_quantity}
use ecommerce_microservice.Order.Quiet.{Quiet}
use ecommerce_microservice.Order.Ledger.Conservation.{create_order-IsBalanced}
use ecommerce_microservice.Order.Service.{create_order}
use ecommerce_microservice.Order.Ledger.{Counts, LedgerLaws, after_reserve, after_create, IfOk}
use ecommerce_microservice.Order.RemoteTotals.{
  KnownIn, StockSite, reserve_stock-total, release_stock-total,
}

-- The order service over the collection of orders, with a product client that goes over HTTP. Each of
-- the two services leaves the documents of the other alone, and so does everything else.
pub record OrderSite {W : Type 0} (s : OrderService W) (docs : W → List Product)
    (rows : W → List Order) (http : HttpClient W)
    (t : Transport W StockMutation (ApiSuccessResponse Product)) : Type 0 where
  pub reserves : s.product_client.reserve_stock ≡ Clients.reserve_stock http t
  pub releases : s.product_client.release_stock ≡ Clients.release_stock http t
  pub orders : Collection W Order
  pub order_laws : CollectionLaws orders same_order rows
  pub atomic : Atomic orders rows
  -- No creation loses its answer: one that fails wrote no order.
  pub unwritten :
      (o : Order) (w w' : W) (e : Error) → orders.create o w ≡ (throw e, w') → rows w' ≡ rows w
  pub stores : s.order_repo ≡ mongo_order_repository orders
  pub quiet_docs : Quiet s docs
  pub quiet_rows : Quiet s rows
  pub client_logs : LeavesLogging rows http.logger
  pub client_waits : (n : ℕ) (w : W) → rows (http.wait n w) ≡ rows w
  pub sends_keep : (r : HttpRequest StockMutation) → Leaves rows (t.send r)
  pub create_keeps : (o : Order) → Leaves docs (orders.create o)
  pub find_keeps : (f : Order → Bool) → Leaves docs (orders.find_one f)
  pub update_keeps :
      (f : Order → Bool) (u : Order → Order) → Leaves docs (orders.find_one_and_update f u)

module _ {W : Type 0} {docs : W → List Product} {rows : W → List Order} {http : HttpClient W}
    {t : Transport W StockMutation (ApiSuccessResponse Product)} (s : OrderService W) {id : String}
    (site : StockSite docs http t id) (books : OrderSite s docs rows http t) where
  abbrev counts : W → Counts
  counts w = record { stock = total_stock (docs w); orders = length (rows w) }

  both : {w w' : W} → docs w' ≡ docs w → rows w' ≡ rows w → counts w' ≡ counts w
  both p q i = record { stock = total_stock (p i); orders = length (q i) }

  reserve_keeps :
      (c : Option String) → Leaves rows (Clients.reserve_stock http t id order_quantity c)
  reserve_keeps c =
      reserve_stock-Leaves rows http t books.client_logs books.client_waits site.reserving.closed
        books.sends_keep id order_quantity c

  release_keeps :
      (c : Option String) → Leaves rows (Clients.release_stock http t id order_quantity c)
  release_keeps c =
      release_stock-Leaves rows http t books.client_logs books.client_waits site.reserving.closed
        books.sends_keep id order_quantity c

  after_reserve-counts :
      (r : Outcome (Unit {0})) (w w' : W)
      → total_stock (docs w')
        ≡ (after_reserve r (record { stock = total_stock (docs w); orders = 0 })).stock
      → rows w' ≡ rows w
      → counts w' ≡ after_reserve r (counts w)
  after_reserve-counts (ok done) w w' p q i = record { stock = p i; orders = length (q i) }
  after_reserve-counts (throw e) w w' p q i = record { stock = p i; orders = length (q i) }

  reserves_row :
      (c : Option String) (w : W)
      → let (r, w') = s.product_client.reserve_stock id order_quantity c w in
        (counts w' ≡ after_reserve r (counts w)) × IfOk r (KnownIn docs id w')
  reserves_row c w =
      let (p, known) = reserve_stock-total site c w in
      subst
        (λ (reserve : String → ℕ → Option String → Action W (Unit {0})).
          let (r, w') = reserve id order_quantity c w in
          (counts w' ≡ after_reserve r (counts w)) × IfOk r (KnownIn docs id w'))
        (sym books.reserves) (after_reserve-counts _ w _ p (reserve_keeps c w), known)

  releases_row :
      (c : Option String) (w : W)
      → KnownIn docs id w
      → (w' : W) × (s.product_client.release_stock id order_quantity c w ≡ (ok tt, w'))
        × (counts w' ≡ record (counts w) { stock = (counts w).stock +ℤ pos order_quantity })
  releases_row c w known =
      let (w', released, back) = release_stock-total site c w known in
      let kept : rows w' ≡ rows w =
        sym (ap (λ (p : Outcome (Unit {0}) × W). rows p.1) released) ∙ release_keeps c w in
      (
        w',
        ap
              (λ (release : String → ℕ → Option String → Action W (Unit {0})).
                release id order_quantity c w)
              books.releases
            ∙ released,
        λ i. record { stock = back i; orders = length (kept i) },
      )

  create-counts :
      (o : Order) (w : W)
      → let (r, w') = Repository.create books.orders o w in counts w' ≡ after_create r (counts w)
  unfolding Repository.create
  create-counts o w =
      let same = books.create_keeps o w in
      elim (settled (books.orders.create o w)) [
        | inr (x, u, e) ↦ rw e (both (rw e at same) (books.unwritten o w u x e))
        | inl (doc, u, e) ↦
            let (_, added, fresh) = books.order_laws.create_lem o w u doc e in
            let more : length (rows u) ≡ length (rows w) + 1 =
              ap length added ∙ length-append (rows w) (o ∷ []) in
            let kept : docs u ≡ docs w = (rw e at same) in
            rw e (λ i. record { stock = total_stock (kept i); orders = more i })
      ]

  find_key-counts : (k : String) → Leaves counts (Repository.find_by_idempotency_key books.orders k)
  unfolding Repository.find_by_idempotency_key
  find_key-counts k w =
      let same = books.find_keeps (has_key k) w in
      elim (settled (books.orders.find_one (has_key k) w)) [
        | inr (x, u, e) ↦
            rw e (both (rw e at same) (books.order_laws.find_one_fails (has_key k) w u x e))
        | inl (o, u, e) ↦
            rw e (both (rw e at same) ((books.order_laws.find_one_lem (has_key k) w u o e).1))
      ]

  update-counts :
      (id : String) (u : UpdateOrderPaymentStatusRequest)
      → Leaves counts (Repository.update_payment_status books.orders id u)
  unfolding Repository.update_payment_status
  update-counts id u w =
      let f = has_order_id id in
      let same = books.update_keeps f (set_status u) w in
      elim (settled (books.orders.find_one_and_update f (set_status u) w)) [
        | inr (x, v, e) ↦
            let kept : docs v ≡ docs w = (rw e at same) in
            elim (books.atomic.update_fails f (set_status u) w v x e) [
              | inl unchanged ↦ rw e (both kept unchanged)
              | inr changed ↦
                  let as_many = ap length changed ∙ length-update_first f (set_status u) (rows w) in
                  rw e (λ i. record { stock = total_stock (kept i); orders = as_many i })
            ]
        | inl (o, v, e) ↦
            let (_, changed) = books.order_laws.update_lem f (set_status u) w v o e in
            let as_many = ap length changed ∙ length-update_first f (set_status u) (rows w) in
            let kept : docs v ≡ docs w = (rw e at same) in
            rw e (λ i. record { stock = total_stock (kept i); orders = as_many i })
      ]

  counts-Quiet : Quiet s counts
  counts-Quiet = record {
    asks_customer = λ id c w.
        both (books.quiet_docs.asks_customer id c w) (books.quiet_rows.asks_customer id c w);
    asks_product = λ id c w.
        both (books.quiet_docs.asks_product id c w) (books.quiet_rows.asks_product id c w);
    pays = λ p c w. both (books.quiet_docs.pays p c w) (books.quiet_rows.pays p c w);
    publishes = λ x k e c w.
        both (books.quiet_docs.publishes x k e c w) (books.quiet_rows.publishes x k e c w);
    logs = λ l m w. both (books.quiet_docs.logs l m w) (books.quiet_rows.logs l m w);
    draws_uuid = λ w. both (books.quiet_docs.draws_uuid w) (books.quiet_rows.draws_uuid w);
    draws_now = λ w. both (books.quiet_docs.draws_now w) (books.quiet_rows.draws_now w);
  }

  known_kept : (w w' : W) → docs w' ≡ docs w → KnownIn docs id w → KnownIn docs id w'
  known_kept w w' same (d, there) = (d, ap (find (has_id id)) same ∙ there)

  create-Leaves : (o : Order) → Leaves docs (Repository.create books.orders o)
  unfolding Repository.create
  create-Leaves o =
      Leaves-bind docs (books.orders.create o) _ (books.create_keeps o) (λ doc w. refl)

  abbrev RepoRows : OrderRepository W → Type 0
  RepoRows repo =
      ((o : Order) (w : W)
        → let (r, w') = repo.create o w in
          (counts w' ≡ after_create r (counts w)) × (docs w' ≡ docs w))
      × ((k : String) → Leaves counts (repo.find_by_idempotency_key k))
      × ((id : String) (u : UpdateOrderPaymentStatusRequest)
          → Leaves counts (repo.update_payment_status id u))

  repo_rows : RepoRows s.order_repo
  unfolding mongo_order_repository
  repo_rows =
      subst RepoRows (sym books.stores)
        (λ o w. (create-counts o w, create-Leaves o w), find_key-counts, update-counts)

  -- What the ledger asks of the dependencies.
  remote_ledger : LedgerLaws s id counts (KnownIn docs id)
  remote_ledger =
      let (creates, finds, updates) = repo_rows in
      record {
        quiet = counts-Quiet;
        reserves = reserves_row;
        releases = releases_row;
        creates = λ o w. (creates o w).0;
        finds_key = finds;
        updates = updates;
        known_after_uuid = λ w. known_kept w (s.uuid w).1 (books.quiet_docs.draws_uuid w);
        known_after_now = λ w. known_kept w (s.now w).1 (books.quiet_docs.draws_now w);
        known_after_create = λ o w. known_kept w (s.order_repo.create o w).1 ((creates o w).1);
      }

-- The two services in one world, for a request's product.
module _ {W : Type 0} {docs : W → List Product} {rows : W → List Order} {http : HttpClient W}
    {t : Transport W StockMutation (ApiSuccessResponse Product)} (s : OrderService W)
    (request : CreateOrderRequest) (site : StockSite docs http t request.product_id)
    (books : OrderSite s docs rows http t) where
  -- Whatever a checkout comes to, the units on the shelves of the product service and the orders in
  -- MongoDB add up to what they were. Both services hold the same key, the breaker is closed, every
  -- stock request reaches its route, whose mutation limiter lets it pass and whose schemas accept the
  -- product's id and the quantity, the products' database is up, a failed write of an order wrote
  -- nothing, and each service, like all else, leaves the other's documents alone.
  pub create_order-conserves_stock :
      (c key : Option String) (w : W)
      → let w' = (create_order s request c key w).1 in
        total_stock (docs w') +ℤ pos (length (rows w'))
        ≡ total_stock (docs w) +ℤ pos (length (rows w))
  create_order-conserves_stock = create_order-IsBalanced request (remote_ledger s site books)
