-- ===== src/Order/Clients.antt =====
-- order-service/src/clients: what the checkout asks of the other services, and the clients that ask
-- over HTTP.
use ecommerce_microservice.Prelude.{ℕ, String, Bool, Option, none, [], if◌then◌else◌}
use ecommerce_microservice.Prelude.Int.{ℤ}
use ecommerce_microservice.Shared.Json.{Json, get_field, is_text}
use ecommerce_microservice.Shared.Errors.{Error, app, foreign, ConflictError, is_upstream, ◌++ˢ◌}
use ecommerce_microservice.Shared.Action.{Action, pure, raise, try_catch, ◌>>=◌}
use ecommerce_microservice.Shared.Dtos.{
  InitiatePaymentRequest, InitiatePaymentResponse, ApiSuccessResponse,
}
use ecommerce_microservice.Shared.HttpClient.{HttpClient, Transport, Method, call}

pub record CustomerInfo : Type 0 where
  pub customer_id : String
  pub name : String
  pub email : String

pub record ProductInfo : Type 0 where
  pub product_id : String
  pub name : String
  pub price : ℕ
  pub stock : ℤ

pub record CustomerClient (W : Type 0) : Type 0 where
  pub get_customer : String → Option String → Action W CustomerInfo

pub record ProductClient (W : Type 0) : Type 0 where
  pub get_product : String → Option String → Action W ProductInfo
  pub reserve_stock : String → ℕ → Option String → Action W (Unit {0})
  pub release_stock : String → ℕ → Option String → Action W (Unit {0})

pub record PaymentClient (W : Type 0) : Type 0 where
  pub initiate_payment : InitiatePaymentRequest → Option String → Action W InitiatePaymentResponse

-- The body of the two stock calls.
pub record StockMutation : Type 0 where
  pub quantity : ℕ

-- `err.details`, which a caught error has if it is an AppError.
abbrev pub details_of : Error → Option Json
details_of (app e) = e.details
details_of (foreign _) = none

-- `details?.error?.code === 'CONFLICT'` on an UpstreamServiceError
abbrev pub is_conflict : Error → Bool
is_conflict e =
    if is_upstream e
    then is_text "CONFLICT" (get_field "code" (get_field "error" (details_of e)))
    else Bool.false

module _ {W : Type 0} (http : HttpClient W) where
  unfoldable pub get_customer :
      Transport W (Unit {0}) (ApiSuccessResponse CustomerInfo)
      → String
      → Option String
      → Action W CustomerInfo
  get_customer t customer_id correlation_id = do
    response ← call Method.get http t ("/customers/" ++ˢ customer_id) tt correlation_id []
    pure response.content

  unfoldable pub get_product :
      Transport W (Unit {0}) (ApiSuccessResponse ProductInfo)
      → String
      → Option String
      → Action W ProductInfo
  get_product t product_id correlation_id = do
    response ← call Method.get http t ("/products/" ++ˢ product_id) tt correlation_id []
    pure response.content

  unfoldable pub initiate_payment :
      Transport W InitiatePaymentRequest (ApiSuccessResponse InitiatePaymentResponse)
      → InitiatePaymentRequest
      → Option String
      → Action W InitiatePaymentResponse
  initiate_payment t request correlation_id = do
    response ← call Method.post http t "/payments" request correlation_id []
    pure response.content

  -- The answer's data is dropped, so its type does not matter.
  unfoldable pub reserve_stock :
      {T : Type 0} → Transport W StockMutation T → String → ℕ → Option String → Action W (Unit {0})
  reserve_stock t product_id quantity correlation_id =
      try_catch
        (call Method.patch http t ("/products/" ++ˢ product_id ++ˢ "/reserve")
            (record { quantity = quantity }) correlation_id []
          >>= λ _. pure tt)
        λ e.
          if is_conflict e
          then raise (ConflictError ("Insufficient stock for product " ++ˢ product_id))
          else raise e

  unfoldable pub release_stock :
      {T : Type 0} → Transport W StockMutation T → String → ℕ → Option String → Action W (Unit {0})
  release_stock t product_id quantity correlation_id =
      call Method.patch http t ("/products/" ++ˢ product_id ++ˢ "/release")
        (record { quantity = quantity }) correlation_id []
      >>= λ _. pure tt
