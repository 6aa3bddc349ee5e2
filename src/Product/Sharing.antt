-- ===== src/Product/Sharing.antt =====
-- Many clients reserving and releasing stock: the product service's calls in any order. Each call
-- is one update of one document, so an interleaving is a list of calls.
use ecommerce_microservice.Prelude.{
  ℕ, ◌+◌, ◌≤◌, String, ◌≡◌, ap, ◌∙◌, ◌⊎◌, inl, inr, Bool, some, List, [], ◌∷◌, find, update_first,
  update_first-miss, Option-cases, All, arith,
}
use ecommerce_microservice.Prelude.Int.{ℤ, pos, pos_part, neg_part, ◌+ℤ◌, ◌≤ℤ◌, int_laws}
use ecommerce_microservice.Shared.Action.{Outcome, ok, throw, settled}
use ecommerce_microservice.Mongo.{Collection, CollectionLaws, Atomic}
use ecommerce_microservice.Product.Model.{Product, same_product_id}
use ecommerce_microservice.Product.Repository.{
  ProductRepository, has_id, has_stock, take_stock, put_stock, mongo_product_repository,
}
use ecommerce_microservice.Product.Service.{reserve_stock, release_stock}
use ecommerce_microservice.Product.Refusals.{reserve_stock-throws, release_stock-throws}
use ecommerce_microservice.Product.Stock.{reserve_stock-ok, release_stock-ok}

-- A call of a client; the units granted to clients and given back by them so far, and the units that
-- calls asked for which threw.
pub data StockCall : Type 0 where
  reserve release : String → ℕ → StockCall

pub record Tally : Type 0 where
  pub granted : ℕ
  pub returned : ℕ
  pub unreserved : ℕ
  pub unreleased : ℕ

abbrev pub count_reserve : ℕ → Outcome Product → Tally → Tally
count_reserve q (ok _) t = record t { granted = t.granted + q }
count_reserve q (throw _) t = record t { unreserved = t.unreserved + q }

abbrev pub count_release : ℕ → Outcome Product → Tally → Tally
count_release q (ok _) t = record t { returned = t.returned + q }
count_release q (throw _) t = record t { unreleased = t.unreleased + q }

abbrev pub opening : Tally
opening = record { granted = 0; returned = 0; unreserved = 0; unreleased = 0 }

module _ {W : Type 0} (repo : ProductRepository W) where
  -- The clients' calls one after the other; a call that throws ends that client's request only.
  unfoldable pub serve : List StockCall → Tally → W → Tally × W
  serve [] t w = (t, w)
  serve (reserve id q ∷ calls) t w =
      let (r, w') = reserve_stock repo id q w in serve calls (count_reserve q r t) w'
  serve (release id q ∷ calls) t w =
      let (r, w') = release_stock repo id q w in serve calls (count_release q r t) w'

-- No product is oversold.
abbrev pub IsInStock : Product → Type 0
IsInStock p = pos 0 ≤ℤ p.stock

abbrev pub total_stock : List Product → ℤ
total_stock [] = pos 0
total_stock (p ∷ ps) = p.stock +ℤ total_stock ps

All-take :
    (id : String) (q : ℕ) (ds : List Product)
    → All IsInStock ds
    → All IsInStock (update_first (has_stock id q) (take_stock q) ds)
All-take id q [] h = tt
All-take id q (d ∷ ds) h = grind (int_laws, All-take id q ds h.1)

All-put :
    (id : String) (q : ℕ) (ds : List Product)
    → All IsInStock ds
    → All IsInStock (update_first (has_id id) (put_stock q) ds)
All-put id q [] h = tt
All-put id q (d ∷ ds) h = grind (int_laws, All-put id q ds h.1)

pub total-take :
    (f : Product → Bool) (q : ℕ) (ds : List Product) (d : Product)
    → find f ds ≡ some d
    → total_stock (update_first f (take_stock q) ds) +ℤ pos q ≡ total_stock ds
total-take f q [] d h = cc
total-take f q (x ∷ ds) d h = grind (int_laws, total-take f q ds d)

pub total-put :
    (f : Product → Bool) (q : ℕ) (ds : List Product) (d : Product)
    → find f ds ≡ some d
    → total_stock (update_first f (put_stock q) ds) ≡ total_stock ds +ℤ pos q
total-put f q [] d h = cc
total-put f q (x ∷ ds) d h = grind (int_laws, total-put f q ds d)

-- From `ds` and `t` to `es` and `u`: what left the stock is what was granted and not given back, but for
-- units that reservations took and releases put back although they threw, at most what those asked for.
pub record Moves (ds : List Product) (t : Tally) (es : List Product) (u : Tally) : Type 0 where
  pub lost : ℕ
  pub found : ℕ
  pub lost_most : t.unreserved + lost ≤ u.unreserved
  pub found_most : t.unreleased + found ≤ u.unreleased
  pub balance :
      (total_stock es +ℤ pos u.granted) +ℤ (pos t.returned +ℤ pos lost)
      ≡ (total_stock ds +ℤ pos t.granted) +ℤ (pos u.returned +ℤ pos found)

balance_trans :
    (d e f : ℤ) (gt gu gv rt ru rv l m x y : ℕ)
    → (e +ℤ pos gu) +ℤ (pos rt +ℤ pos l) ≡ (d +ℤ pos gt) +ℤ (pos ru +ℤ pos x)
    → (f +ℤ pos gv) +ℤ (pos ru +ℤ pos m) ≡ (e +ℤ pos gu) +ℤ (pos rv +ℤ pos y)
    → (f +ℤ pos gv) +ℤ (pos rt +ℤ pos (l + m)) ≡ (d +ℤ pos gt) +ℤ (pos rv +ℤ pos (x + y))
balance_trans d e f gt gu gv rt ru rv l m x y a b =
    omega (int_laws, ap pos_part a, ap neg_part a, ap pos_part b, ap neg_part b)

Moves-trans :
    {ds es fs : List Product} {t u v : Tally} → Moves ds t es u → Moves es u fs v → Moves ds t fs v
Moves-trans {t = t} {u = u} {v = v} m n = record {
  lost = m.lost + n.lost;
  found = m.found + n.found;
  lost_most = omega (arith, m.lost_most, n.lost_most);
  found_most = omega (arith, m.found_most, n.found_most);
  balance =
      balance_trans _ _ _ t.granted u.granted v.granted t.returned u.returned v.returned m.lost
        n.lost m.found n.found m.balance n.balance;
}

module _ {W : Type 0} {products : Collection W Product} {docs : W → List Product}
    (laws : CollectionLaws products same_product_id docs) (atomic : Atomic products docs) where
  unmoved_reserve :
      (ds : List Product) (t : Tally) (q : ℕ)
      → Moves ds t ds (record t { unreserved = t.unreserved + q })
  unmoved_reserve ds t q = record {
    lost = 0;
    found = 0;
    lost_most = omega arith;
    found_most = omega arith;
    balance = grind int_laws;
  }

  unmoved_release :
      (ds : List Product) (t : Tally) (q : ℕ)
      → Moves ds t ds (record t { unreleased = t.unreleased + q })
  unmoved_release ds t q = record {
    lost = 0;
    found = 0;
    lost_most = omega arith;
    found_most = omega arith;
    balance = grind int_laws;
  }

  -- What a reservation that threw did: nothing, or it took its units all the same.
  took :
      (id : String) (q : ℕ) (t : Tally) (ds es : List Product)
      → (es ≡ ds) ⊎ (es ≡ update_first (has_stock id q) (take_stock q) ds)
      → All IsInStock ds
      → All IsInStock es × Moves ds t es (record t { unreserved = t.unreserved + q })
  took id q t ds es (inl same) h = rw same (h, unmoved_reserve ds t q)
  took id q t ds es (inr taken) h = elim (Option-cases (find (has_stock id q) ds)) [
    | inl missing ↦
        let same = taken ∙ update_first-miss (has_stock id q) (take_stock q) ds missing in
        rw same (h, unmoved_reserve ds t q)
    | inr (d, there) ↦ rw taken (
      All-take id q ds h,
      record {
        lost = q;
        found = 0;
        lost_most = omega arith;
        found_most = omega arith;
        balance = grind (int_laws, total-take (has_stock id q) q ds d there);
      },
    )
  ]

  put_back :
      (id : String) (q : ℕ) (t : Tally) (ds es : List Product)
      → (es ≡ ds) ⊎ (es ≡ update_first (has_id id) (put_stock q) ds)
      → All IsInStock ds
      → All IsInStock es × Moves ds t es (record t { unreleased = t.unreleased + q })
  put_back id q t ds es (inl same) h = rw same (h, unmoved_release ds t q)
  put_back id q t ds es (inr put) h = elim (Option-cases (find (has_id id) ds)) [
    | inl missing ↦
        let same = put ∙ update_first-miss (has_id id) (put_stock q) ds missing in
        rw same (h, unmoved_release ds t q)
    | inr (d, there) ↦ rw put (
      All-put id q ds h,
      record {
        lost = 0;
        found = q;
        lost_most = omega arith;
        found_most = omega arith;
        balance = grind (int_laws, total-put (has_id id) q ds d there);
      },
    )
  ]

  reserve-Moves :
      (id : String) (q : ℕ) (t : Tally) (w : W)
      → All IsInStock (docs w)
      → let (r, w') = reserve_stock (mongo_product_repository products) id q w in
        All IsInStock (docs w') × Moves (docs w) t (docs w') (count_reserve q r t)
  reserve-Moves id q t w h =
      elim (settled (reserve_stock (mongo_product_repository products) id q w)) [
        | inl (p, w', e) ↦
            let (d, there, taken, changed) = reserve_stock-ok laws id q w w' p e in
            rw (e, changed)
              (
                All-take id q (docs w) h,
                record {
                  lost = 0;
                  found = 0;
                  lost_most = omega arith;
                  found_most = omega arith;
                  balance = grind (int_laws, total-take (has_stock id q) q (docs w) d there);
                },
              )
        | inr (f, w', e) ↦
            let did = reserve_stock-throws laws atomic id q w w' f e in
            rw e (took id q t (docs w) (docs w') did h)
      ]

  release-Moves :
      (id : String) (q : ℕ) (t : Tally) (w : W)
      → All IsInStock (docs w)
      → let (r, w') = release_stock (mongo_product_repository products) id q w in
        All IsInStock (docs w') × Moves (docs w) t (docs w') (count_release q r t)
  release-Moves id q t w h =
      elim (settled (release_stock (mongo_product_repository products) id q w)) [
        | inl (p, w', e) ↦
            let (d, there, put, changed) = release_stock-ok laws id q w w' p e in
            rw (e, changed)
              (
                All-put id q (docs w) h,
                record {
                  lost = 0;
                  found = 0;
                  lost_most = omega arith;
                  found_most = omega arith;
                  balance = grind (int_laws, total-put (has_id id) q (docs w) d there);
                },
              )
        | inr (f, w', e) ↦
            let did = release_stock-throws laws atomic id q w w' f e in
            rw e (put_back id q t (docs w) (docs w') did h)
      ]

  serve-Moves :
      (calls : List StockCall) (t : Tally) (w : W)
      → All IsInStock (docs w)
      → let (t', w') = serve (mongo_product_repository products) calls t w in
        All IsInStock (docs w') × Moves (docs w) t (docs w') t'
  unfolding serve
  serve-Moves [] t w h = (
    h,
    record {
      lost = 0;
      found = 0;
      lost_most = omega arith;
      found_most = omega arith;
      balance = grind int_laws;
    },
  )
  serve-Moves (reserve id q ∷ calls) t w h =
      let (r, w') = reserve_stock (mongo_product_repository products) id q w in
      let (kept, first) = reserve-Moves id q t w h in
      let (last, rest) = serve-Moves calls (count_reserve q r t) w' kept in
      (last, Moves-trans first rest)
  serve-Moves (release id q ∷ calls) t w h =
      let (r, w') = release_stock (mongo_product_repository products) id q w in
      let (kept, first) = release-Moves id q t w h in
      let (last, rest) = serve-Moves calls (count_release q r t) w' kept in
      (last, Moves-trans first rest)

  -- However the calls of the clients interleave, and whichever of them throw, before their write or
  -- after it: if no product is below zero before, none is below zero after, and the units granted are
  -- the units that have left the stock, those given back counted in, but for units that calls moved
  -- which threw: `lost` of reservations and `found` of releases, at most what these asked for.
  pub serve-conserves :
      (calls : List StockCall) (w : W)
      → All IsInStock (docs w)
      → let (t, w') = serve (mongo_product_repository products) calls opening w in
        All IsInStock (docs w')
        × (lost : ℕ) × (found : ℕ) × (lost ≤ t.unreserved)
        × (found ≤ t.unreleased)
        × (total_stock (docs w') +ℤ (pos t.granted +ℤ pos lost)
            ≡ total_stock (docs w) +ℤ (pos t.returned +ℤ pos found))
  serve-conserves calls w h =
      let (kept, m) = serve-Moves calls opening w h in
      (
        kept,
        m.lost,
        m.found,
        omega (arith, m.lost_most),
        omega (arith, m.found_most),
        omega (int_laws, ap pos_part m.balance, ap neg_part m.balance),
      )
