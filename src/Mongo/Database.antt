-- ===== src/Mongo/Database.antt =====
-- config/database.ts, which order-service, product-service, customer-service and transaction-worker
-- each have a copy of: the variable that the events of the driver's connection set.
use ecommerce_microservice.Prelude.{ℕ, Bool, true, false, ◌||◌, ◌==◌}
use ecommerce_microservice.Shared.Logger.{Logger, LogLevel}

pub data DatabaseEvent : Type 0 where
  connected failed disconnected : DatabaseEvent

-- The variable, and the world that the handlers log to.
pub record Database (W : Type 0) : Type 0 where
  pub world : W
  pub is_connected : Bool

module _ {W : Type 0} (logger : Logger W) where
  unfoldable pub on_event : DatabaseEvent → Database W → Database W
  on_event connected d = record {
    world = logger LogLevel.info "MongoDB connected" d.world;
    is_connected = true;
  }
  on_event failed d = record {
    world = logger LogLevel.error "MongoDB connection error" d.world;
    is_connected = false;
  }
  on_event disconnected d = record {
    world = logger LogLevel.warn "MongoDB disconnected" d.world;
    is_connected = false;
  }

-- `mongoose.connection.readyState` is 1 when the driver is connected.
unfoldable pub is_database_connected : {W : Type 0} → Database W → ℕ → Bool
is_database_connected d ready_state = d.is_connected || ready_state == 1
