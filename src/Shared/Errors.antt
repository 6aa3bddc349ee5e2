-- ===== src/Shared/Errors.antt =====
-- shared/src/errors/AppError.ts: the errors that the services throw, and what else is thrown.
use Prim.Native.String
use ecommerce_microservice.Prelude.{
  ℕ, String, Bool, true, false, Option, none, str_eq, if◌then◌else◌,
}
use ecommerce_microservice.Shared.Json.{Json}

-- The subclass, which is what `instanceof` tests.
pub data ErrorClass : Type 0 where
  not_found_error validation_error bad_request_error conflict_error : ErrorClass
  upstream_service_error internal_server_error : ErrorClass

pub record AppError : Type 0 where
  pub error_class : ErrorClass
  pub message : String
  pub status_code : ℕ
  pub code : String
  pub details : Option Json

-- The answer that an HTTP error carries (`AxiosError.response`).
pub record ErrorResponse : Type 0 where
  pub status : ℕ
  pub payload : Json

-- Any other thrown value: of the driver, of the broker, of axios or of the breaker.
pub record ForeignError : Type 0 where
  pub message : String
  pub code : Option ℕ
  pub response : Option ErrorResponse

pub data Error : Type 0 where
  app : AppError → Error
  foreign : ForeignError → Error

infixl 65 ◌++ˢ◌
abbrev pub ◌++ˢ◌ : String → String → String
s ++ˢ t = String.◌++◌ s t

abbrev pub app_error : ErrorClass → String → ℕ → String → Option Json → Error
app_error k message status_code code details = app (record {
  error_class = k;
  message = message;
  status_code = status_code;
  code = code;
  details = details;
})

-- `identifier ? … : …`: the empty text counts as no identifier.
abbrev pub NotFoundError : String → String → Error
NotFoundError resource identifier =
    app_error not_found_error
      (if str_eq identifier ""
        then resource ++ˢ " was not found"
        else resource ++ˢ " with id '" ++ˢ identifier ++ˢ "' was not found")
      404 "NOT_FOUND" none

abbrev pub ValidationError : String → Option Json → Error
ValidationError message details = app_error validation_error message 400 "VALIDATION_ERROR" details

abbrev pub BadRequestError : String → Option Json → Error
BadRequestError message details = app_error bad_request_error message 400 "BAD_REQUEST" details

abbrev pub InternalServerError : String → Error
InternalServerError message =
    app_error internal_server_error message 500 "INTERNAL_SERVER_ERROR" none

abbrev pub ConflictError : String → Error
ConflictError message = app_error conflict_error message 409 "CONFLICT" none

abbrev pub UpstreamServiceError : String → String → Option Json → Error
UpstreamServiceError service_name message details =
    app_error upstream_service_error
      ("Upstream service '" ++ˢ service_name ++ˢ "' error: " ++ˢ message) 502
      "UPSTREAM_SERVICE_ERROR" details

-- `err instanceof UpstreamServiceError`
abbrev pub is_upstream_class : ErrorClass → Bool
is_upstream_class upstream_service_error = true
is_upstream_class _ = false

abbrev pub is_upstream : Error → Bool
is_upstream (app e) = is_upstream_class e.error_class
is_upstream (foreign _) = false

-- `(err as Error).message`
abbrev pub message_of : Error → String
message_of (app e) = e.message
message_of (foreign e) = e.message

-- `(err as AxiosError).response`
abbrev pub response_of : Error → Option ErrorResponse
response_of (app _) = none
response_of (foreign e) = e.response

-- `(err as { code?: number }).code`, compared with a number: an AppError's code is a text.
abbrev pub numeric_code_of : Error → Option ℕ
numeric_code_of (app _) = none
numeric_code_of (foreign e) = e.code
