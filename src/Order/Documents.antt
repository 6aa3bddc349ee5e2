-- ===== src/Order/Documents.antt =====
-- The orders as documents: lookups by id and by key, and the status update.
use ecommerce_microservice.Prelude.{
  String, ◌≡◌, refl, ◌⊎◌, inl, inr, Bool, Bool-cases, Option, none, some, List, [], ◌∷◌, ◌++◌,
  arith, find, any, false, Option-cases, update_first, str_eq_iff,
}
use ecommerce_microservice.Shared.Action.{ok, bind-eq-ok}
use ecommerce_microservice.Shared.Dtos.{UpdateOrderPaymentStatusRequest}
use ecommerce_microservice.Mongo.{Collection, CollectionLaws, map_option}
use ecommerce_microservice.Order.Model.{Order, same_order}
use ecommerce_microservice.Order.Repository.{
  has_order_id, has_key, set_status, to_attributes?, create, find_by_idempotency_key,
  find_by_order_id, update_payment_status,
}

-- The order is one of the documents.
abbrev pub In : Order → List Order → Type 0
In o [] = ⊥
In o (p ∷ ps) = (o ≡ p) ⊎ In o ps

pub find-In : (f : Order → Bool) (ds : List Order) (o : Order) → find f ds ≡ some o → In o ds
find-In f [] o e = cc
find-In f (d ∷ ds) o e = ground (arith, find-In f ds o)

pub find-In_updated :
    (f : Order → Bool) (u : Order → Order) (ds : List Order) (o : Order)
    → find f ds ≡ some o
    → In (u o) (update_first f u ds)
find-In_updated f u [] o e = cc
find-In_updated f u (d ∷ ds) o e = ground (arith, find-In_updated f u ds o)

module _ (update : UpdateOrderPaymentStatusRequest) where
  -- A status update keeps the ids, so the order is found where it was.
  pub find-set_status :
      (id : String) (ds : List Order)
      → find (has_order_id id) (update_first (has_order_id id) (set_status update) ds)
        ≡ map_option (set_status update) (find (has_order_id id) ds)
  find-set_status id [] = refl
  find-set_status id (d ∷ ds) = ground (arith, find-set_status id ds)

  pub find_key-set_status :
      (k id : String) (ds : List Order) (p : Order)
      → find (has_key k) ds ≡ some p
      → (q : Order) × (find (has_key k) (update_first (has_order_id id) (set_status update) ds)
          ≡ some q)
        × (q.order_id ≡ p.order_id)
  find_key-set_status k id [] p e = cc
  find_key-set_status k id (d ∷ ds) p e = elim (Bool-cases (has_key k d)) [
    | inl keyed ↦ elim (Bool-cases (has_order_id id d)) [
      | inl hit ↦ (set_status update d, ground arith, ground arith)
      | inr miss ↦ (p, ground arith, refl)
    ]
    | inr other ↦ elim (Bool-cases (has_order_id id d)) [
      | inl hit ↦ (p, ground arith, refl)
      | inr miss ↦
          let (q, found, same) = find_key-set_status k id ds p (ground arith) in
          (q, ground arith, same)
    ]
  ]

-- A document that the unique indexes let in is new by its id and by its key.
pub find_id-fresh :
    (o : Order) (ds : List Order)
    → any (same_order o) ds ≡ false
    → find (has_order_id o.order_id) ds ≡ none
find_id-fresh o [] h = refl
find_id-fresh o (d ∷ ds) h =
    ground (
      arith,
      str_eq_iff o.order_id d.order_id,
      str_eq_iff d.order_id o.order_id,
      find_id-fresh o ds,
    )

pub find_key-fresh :
    (o : Order) (k : String) (ds : List Order)
    → o.idempotency_key ≡ some k
    → any (same_order o) ds ≡ false
    → find (has_key k) ds ≡ none
find_key-fresh o k [] e h = refl
find_key-fresh o k (d ∷ ds) e h = elim (Option-cases d.idempotency_key) [
  | inl keyless ↦ ground (arith, find_key-fresh o k ds e)
  | inr (j, keyed) ↦ ground (arith, str_eq_iff k j, str_eq_iff j k, find_key-fresh o k ds e)
]

to_attributes?-id : (o : Option Order) → to_attributes? o ≡ o
to_attributes?-id none = refl
to_attributes?-id (some d) = refl

module _ {W : Type 0} {orders : Collection W Order} {docs : W → List Order}
    (laws : CollectionLaws orders same_order docs) where
  pub create_row :
      (o r : Order) (w w' : W)
      → create orders o w ≡ (ok r, w')
      → (r ≡ o) × (docs w' ≡ docs w ++ o ∷ []) × (any (same_order o) (docs w) ≡ false)
  unfolding create
  create_row o r w w' h =
      let (doc, u, called, answered) = bind-eq-ok _ _ h in
      let (same, added, fresh) = laws.create_lem o w u doc called in
      (ground arith, ground arith, fresh)

  pub find_key_row :
      (k : String) (r : Option Order) (w w' : W)
      → find_by_idempotency_key orders k w ≡ (ok r, w')
      → (r ≡ find (has_key k) (docs w)) × (docs w' ≡ docs w)
  unfolding find_by_idempotency_key
  find_key_row k r w w' h =
      let (doc, u, called, answered) = bind-eq-ok _ _ h in
      let (found, kept) = laws.find_one_lem _ w u doc called in
      (ground (arith, to_attributes?-id doc), ground arith)

  pub find_id_row :
      (id : String) (r : Option Order) (w w' : W)
      → find_by_order_id orders id w ≡ (ok r, w')
      → (r ≡ find (has_order_id id) (docs w)) × (docs w' ≡ docs w)
  unfolding find_by_order_id
  find_id_row id r w w' h =
      let (doc, u, called, answered) = bind-eq-ok _ _ h in
      let (found, kept) = laws.find_one_lem _ w u doc called in
      (ground (arith, to_attributes?-id doc), ground arith)

  pub update_row :
      (id : String) (update : UpdateOrderPaymentStatusRequest) (r : Option Order) (w w' : W)
      → update_payment_status orders id update w ≡ (ok r, w')
      → (r ≡ map_option (set_status update) (find (has_order_id id) (docs w)))
        × (docs w' ≡ update_first (has_order_id id) (set_status update) (docs w))
  unfolding update_payment_status
  update_row id update r w w' h =
      let (doc, u, called, answered) = bind-eq-ok _ _ h in
      let (found, changed) = laws.update_lem _ _ w u doc called in
      (ground (arith, to_attributes?-id doc), ground arith)
