-- ===== src/Shared/ErrorHandler.antt =====
-- shared/src/errors/errorHandler.ts and asyncHandler.ts: how a request is answered when its handler
-- throws. A reply is what reaches the caller: a status and a body.
pub mod Laws
use ecommerce_microservice.Prelude.{ℕ, String, Option, none, some, false}
use ecommerce_microservice.Prelude.Show.{show}
use ecommerce_microservice.Shared.Json.{Json, bool, str, obj, Fields, end, field}
use ecommerce_microservice.Shared.Errors.{Error, app, foreign, ErrorResponse, ◌++ˢ◌}
use ecommerce_microservice.Shared.Action.{Outcome, ok, throw, Action}
use ecommerce_microservice.Shared.Logger.{Logger, LogLevel}

pub record ErrorResponseBody : Type 0 where
  pub code : String
  pub message : String
  pub details : Option Json
  pub correlation_id : Option String

-- `res.status(s).json(…)`, with a success body or with an error body.
pub data Reply (T : Type 0) : Type 0 where
  success : ℕ → T → Reply T
  failure : ℕ → ErrorResponseBody → Reply T

module _ {T : Type 0} where
  abbrev pub status_of : Reply T → ℕ
  status_of (success s _) = s
  status_of (failure s _) = s

abbrev pub optional_field : String → Option Json → Fields → Fields
optional_field k none fs = fs
optional_field k (some v) fs = field k v fs

abbrev pub optional_str : Option String → Option Json
optional_str none = none
optional_str (some s) = some (str s)

-- The body as the caller reads it: `JSON.stringify` leaves undefined fields out.
abbrev pub error_json : ErrorResponseBody → Json
error_json b = obj (
    field "success" (bool false) (
      field "error"
        (obj (
          field "code" (str b.code)
            (field "message" (str b.message) (optional_field "details" b.details end))))
        (optional_field "correlationId" (optional_str b.correlation_id) end)))

-- A line of the log is its message with the fields of the object that is logged in front of it, as text;
-- of the error, `err`, its message.
abbrev pub entry : String → String → String → String
entry k v line = k ++ˢ "=" ++ˢ v ++ˢ " " ++ˢ line

abbrev pub optional_entry : String → Option String → String → String
optional_entry k none line = line
optional_entry k (some v) line = entry k v line

abbrev pub logged_error : Option String → Error → String
logged_error correlation_id (app e) = entry "err" e.message (
    optional_entry "correlationId" correlation_id
      (entry "statusCode" (show e.status_code) (entry "code" e.code "Handled operational error")))
logged_error correlation_id (foreign e) =
    entry "err" e.message (optional_entry "correlationId" correlation_id "Unhandled error")

abbrev pub log_error : {W : Type 0} → Logger W → Option String → Error → W → W
log_error logger correlation_id (app e) w =
    logger LogLevel.warn (logged_error correlation_id (app e)) w
log_error logger correlation_id (foreign e) w =
    logger LogLevel.error (logged_error correlation_id (foreign e)) w

module _ {T : Type 0} where
  -- `correlation_id` is the request's own header.
  unfoldable pub error_handler : Option String → Error → Reply T
  error_handler correlation_id (app e) = failure e.status_code (record {
    code = e.code;
    message = e.message;
    details = e.details;
    correlation_id = correlation_id;
  })
  error_handler correlation_id (foreign e) = failure 500 (record {
    code = "INTERNAL_SERVER_ERROR";
    message = "An unexpected error occurred";
    details = none;
    correlation_id = correlation_id;
  })

  abbrev pub settle : {W : Type 0} → Logger W → Option String → Outcome (Reply T) × W → Reply T × W
  settle logger correlation_id (ok r, w) = (r, w)
  settle logger correlation_id (throw e, w) =
      (error_handler correlation_id e, log_error logger correlation_id e w)

  -- `asyncHandler(fn)` with the error handler behind it: every request is answered.
  unfoldable pub async_handler :
      {W : Type 0} → Logger W → Option String → Action W (Reply T) → W → Reply T × W
  unfolding error_handler
  async_handler logger correlation_id fn w = settle logger correlation_id (fn w)

-- `notFoundHandler`
unfoldable pub not_found_handler : {T : Type 0} → String → String → Reply T
not_found_handler method original_url = failure 404 (record {
  code = "ROUTE_NOT_FOUND";
  message = "No route found for " ++ˢ method ++ˢ " " ++ˢ original_url;
  details = none;
  correlation_id = none;
})

-- The error answer as axios hands it to the caller.
abbrev pub as_error_response : ℕ → ErrorResponseBody → ErrorResponse
as_error_response s b = record { status = s; payload = error_json b }
