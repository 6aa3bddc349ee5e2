-- ===== src/Transaction/Processor.antt =====
-- transaction-worker/src: models/Transaction.ts, repositories/MongoTransactionRepository.ts over the
-- collection of transactions, and TransactionProcessor.ts.
use ecommerce_microservice.Prelude.{ℕ, String, Bool, str_eq}
use ecommerce_microservice.Shared.Action.{Action, effect, ◌>>◌}
use ecommerce_microservice.Shared.Logger.{Logger, LogLevel}
use ecommerce_microservice.Shared.Dtos.{TransactionCreatedEvent}
use ecommerce_microservice.Mongo.{Collection}

-- TransactionAttributes
pub record Transaction : Type 0 where
  pub transaction_id : String
  pub customer_id : String
  pub order_id : String
  pub product_id : String
  pub amount : ℕ
  pub created_at : ℕ

abbrev pub has_transaction_id : String → Transaction → Bool
has_transaction_id id t = str_eq t.transaction_id id

-- The unique index of the schema.
abbrev pub same_transaction : Transaction → Transaction → Bool
same_transaction t u = str_eq t.transaction_id u.transaction_id

-- ITransactionRepository
pub record TransactionRepository (W : Type 0) : Type 0 where
  pub save_if_not_exists : Transaction → Action W (Unit {0})

module _ {W : Type 0} (transactions : Collection W Transaction) where
  unfoldable pub save_if_not_exists : Transaction → Action W (Unit {0})
  save_if_not_exists t = transactions.upsert (has_transaction_id t.transaction_id) t

  unfoldable pub mongo_transaction_repository : TransactionRepository W
  unfolding save_if_not_exists
  mongo_transaction_repository = record { save_if_not_exists = save_if_not_exists }

abbrev pub transaction_of : TransactionCreatedEvent → Transaction
transaction_of event = record {
  transaction_id = event.transaction_id;
  customer_id = event.customer_id;
  order_id = event.order_id;
  product_id = event.product_id;
  amount = event.amount;
  created_at = event.created_at;
}

abbrev pub persisted_message : String
persisted_message = "Transaction persisted to history"

module _ {W : Type 0} (repo : TransactionRepository W) (logger : Logger W) where
  unfoldable pub handle : TransactionCreatedEvent → Action W (Unit {0})
  handle event = do
    repo.save_if_not_exists (transaction_of event)
    effect (logger LogLevel.info persisted_message)
