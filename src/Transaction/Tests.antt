-- ===== src/Transaction/Tests.antt =====
-- The history of payments in memory, under redelivery.
use ecommerce_microservice.Prelude.{String, ◌≡◌, refl, some, List, [], ◌∷◌, find}
use ecommerce_microservice.Shared.Action.{ok}
use ecommerce_microservice.Shared.Logger.{Logger}
use ecommerce_microservice.Shared.Dtos.{TransactionCreatedEvent}
use ecommerce_microservice.Mongo.{Collection, CollectionLaws}
use ecommerce_microservice.Mongo.Memory.{memory, memory_laws, memory-Atomic}
use ecommerce_microservice.Transaction.Processor.{
  Transaction, has_transaction_id, same_transaction, save_if_not_exists,
  mongo_transaction_repository, transaction_of, handle,
}
use ecommerce_microservice.Transaction.Redelivery.{
  IsHistory, deliver, handle_twice, deliver-IsHistory,
}

abbrev stored : Collection (List Transaction) Transaction
stored = memory same_transaction (λ ts. ts) (λ ts _. ts)

abbrev stored_laws : CollectionLaws stored same_transaction (λ ts. ts)
stored_laws = memory_laws same_transaction (λ ts. ts) (λ ts _. ts) (λ ts w. refl)

abbrev silent : Logger (List Transaction)
silent level message ts = ts

abbrev event : String → TransactionCreatedEvent
event id = record {
  transaction_id = id;
  customer_id = "cust-1";
  order_id = "order-0";
  product_id = "001";
  amount = 19990;
  created_at = 7;
}

abbrev kept : List Transaction
kept = transaction_of (event "payment-0") ∷ []

handle_first :
    handle (mongo_transaction_repository stored) silent (event "payment-0") [] ≡ (ok tt, kept)
unfolding handle mongo_transaction_repository save_if_not_exists
handle_first = refl

handle_again :
    handle (mongo_transaction_repository stored) silent (event "payment-0") kept ≡ (ok tt, kept)
unfolding handle mongo_transaction_repository save_if_not_exists
handle_again = refl

handle_twice_example :
    ((t : Transaction) × (find (has_transaction_id "payment-0") kept ≡ some t)) × (kept ≡ kept)
handle_twice_example =
    handle_twice stored_laws silent (λ l m w. refl) (event "payment-0") [] kept kept kept
      handle_first refl handle_again

abbrev deliveries : List TransactionCreatedEvent
deliveries = event "payment-0" ∷ event "payment-1" ∷ event "payment-0" ∷ []

deliver-IsHistory_example :
    IsHistory (deliver (mongo_transaction_repository stored) silent deliveries [])
deliver-IsHistory_example =
    deliver-IsHistory stored_laws silent (λ l m w. refl)
      (memory-Atomic same_transaction (λ ts. ts) (λ ts _. ts)) deliveries [] tt
