-- ===== src/Transaction/Redelivery.antt =====
-- A broker delivers a message at least once: what redelivery does to the history of payments.
use ecommerce_microservice.Prelude.{
  String, ◌≡◌, refl, sym, ap, subst, ◌∙◌, inl, inr, none, some, List, [], ◌∷◌, ◌++◌, find,
  find-append_none, Option-cases, arith, str_eq_refl, str_eq_iff,
}
use ecommerce_microservice.Shared.Action.{ok, settled, bind-eq-ok}
use ecommerce_microservice.Shared.Logger.{Logger, LogLevel}
use ecommerce_microservice.Shared.Dtos.{TransactionCreatedEvent}
use ecommerce_microservice.Mongo.{
  Collection, CollectionLaws, Atomic, upserted, upserted-miss, upserted-present,
}
use ecommerce_microservice.Transaction.Processor.{
  Transaction, TransactionRepository, has_transaction_id, same_transaction, save_if_not_exists,
  mongo_transaction_repository, transaction_of, persisted_message, handle,
}

-- No two transactions have the same id.
abbrev pub IsHistory : List Transaction → Type 0
IsHistory [] = Unit
IsHistory (t ∷ ts) = (find (has_transaction_id t.transaction_id) ts ≡ none) × IsHistory ts

find-other :
    (t u : Transaction) (ts : List Transaction)
    → find (has_transaction_id u.transaction_id) (t ∷ ts) ≡ none
    → find (has_transaction_id t.transaction_id) ts ≡ none
    → find (has_transaction_id t.transaction_id) (ts ++ u ∷ []) ≡ none
find-other t u ts h k =
    find-append_none (has_transaction_id t.transaction_id) ts u k
    ∙ ground (
      arith,
      str_eq_iff u.transaction_id t.transaction_id,
      str_eq_iff t.transaction_id u.transaction_id,
    )

append-IsHistory :
    (ts : List Transaction) (u : Transaction)
    → IsHistory ts
    → find (has_transaction_id u.transaction_id) ts ≡ none
    → IsHistory (ts ++ u ∷ [])
append-IsHistory [] u h k = (refl, tt)
append-IsHistory (t ∷ ts) u h k =
    (find-other t u ts k h.0, append-IsHistory ts u h.1 (ground arith))

upserted-IsHistory :
    (u : Transaction) (ts : List Transaction)
    → IsHistory ts
    → IsHistory (upserted (has_transaction_id u.transaction_id) u ts)
upserted-IsHistory u ts h = elim (Option-cases (find (has_transaction_id u.transaction_id) ts)) [
  | inl missing ↦
      subst IsHistory (sym (upserted-miss _ u ts missing)) (append-IsHistory ts u h missing)
  | inr (t, there) ↦ subst IsHistory (sym (upserted-present _ u t ts there)) h
]

-- After an insert the id is there.
find-upserted :
    (u : Transaction) (ts : List Transaction)
    → (t : Transaction) × (find
          (has_transaction_id u.transaction_id)
          (upserted (has_transaction_id u.transaction_id) u ts)
        ≡ some t)
find-upserted u ts =
    let test = has_transaction_id u.transaction_id in
    elim (Option-cases (find test ts)) [
      | inl missing ↦ (
        u,
        ap (find test) (upserted-miss test u ts missing)
            ∙ find-append_none test ts u missing
            ∙ rw (str_eq_refl u.transaction_id),
      )
      | inr (t, there) ↦ (t, ap (find test) (upserted-present test u t ts there) ∙ there)
    ]

-- The deliveries one after the other; one that fails ends itself only.
unfoldable pub deliver :
    {W : Type 0} → TransactionRepository W → Logger W → List TransactionCreatedEvent → W → W
deliver repo logger [] w = w
deliver repo logger (e ∷ es) w = deliver repo logger es (handle repo logger e w).1

module _ {W : Type 0} {transactions : Collection W Transaction} {docs : W → List Transaction}
    (laws : CollectionLaws transactions same_transaction docs) (logger : Logger W)
    (logs : (l : LogLevel) (m : String) (w : W) → docs (logger l m w) ≡ docs w) where
  handle-ok :
      (event : TransactionCreatedEvent) (w w' : W)
      → handle (mongo_transaction_repository transactions) logger event w ≡ (ok tt, w')
      → docs w' ≡ upserted (has_transaction_id event.transaction_id) (transaction_of event) (docs w)
  unfolding handle mongo_transaction_repository save_if_not_exists
  handle-ok event w w' h =
      let (done, u, saved, rest) =
        bind-eq-ok
          (transactions.upsert (has_transaction_id event.transaction_id) (transaction_of event) w) _
          h in
      let here : logger LogLevel.info persisted_message u ≡ w' = ground arith in
      sym (ap docs here)
      ∙ logs LogLevel.info persisted_message u
      ∙ laws.upsert_lem (has_transaction_id event.transaction_id) (transaction_of event) w u saved

  -- An event that was handled is in the history, under its id; and if it is delivered again while
  -- the history is as the first delivery left it, the second delivery that succeeds changes nothing.
  pub handle_twice :
      (event : TransactionCreatedEvent) (w w' u u' : W)
      → handle (mongo_transaction_repository transactions) logger event w ≡ (ok tt, w')
      → docs u ≡ docs w'
      → handle (mongo_transaction_repository transactions) logger event u ≡ (ok tt, u')
      → ((t : Transaction) × (find (has_transaction_id event.transaction_id) (docs w') ≡ some t))
        × (docs u' ≡ docs w')
  handle_twice event w w' u u' first between second =
      let (t, there) = find-upserted (transaction_of event) (docs w) in
      let recorded =
        ap (find (has_transaction_id event.transaction_id)) (handle-ok event w w' first) ∙ there in
      let again = handle-ok event u u' second in
      (
        (t, recorded),
        again
            ∙ upserted-present _ (transaction_of event) t (docs u)
                (ap (find (has_transaction_id event.transaction_id)) between ∙ recorded)
            ∙ between,
      )

  module _ (atomic : Atomic transactions docs) where
    handle-IsHistory :
        (event : TransactionCreatedEvent) (w : W)
        → IsHistory (docs w)
        → IsHistory (docs (handle (mongo_transaction_repository transactions) logger event w).1)
    unfolding handle mongo_transaction_repository save_if_not_exists
    handle-IsHistory event w h =
        elim (settled (
          transactions.upsert (has_transaction_id event.transaction_id) (transaction_of event) w)) [
            | inr (x, u, e) ↦ elim (atomic.upsert_fails _ _ w u x e) [
              | inl unwritten ↦ rw (e, unwritten) h
              | inr written ↦ rw (e, written) (upserted-IsHistory (transaction_of event) (docs w) h)
            ]
            | inl (done, u, e) ↦
                rw (e, logs LogLevel.info persisted_message u, laws.upsert_lem _ _ w u e)
                  (upserted-IsHistory (transaction_of event) (docs w) h)
          ]

    -- Whatever events are delivered, in whatever order and however often, and whichever deliveries
    -- fail, before their write or after it: a history in which no two transactions have the same id
    -- stays one, if the log writes no transactions.
    pub deliver-IsHistory :
        (events : List TransactionCreatedEvent) (w : W)
        → IsHistory (docs w)
        → IsHistory (docs (deliver (mongo_transaction_repository transactions) logger events w))
    unfolding deliver
    deliver-IsHistory [] w h = h
    deliver-IsHistory (e ∷ es) w h = deliver-IsHistory es _ (handle-IsHistory e w h)
