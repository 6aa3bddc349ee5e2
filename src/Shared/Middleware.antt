-- ===== src/Shared/Middleware.antt =====
-- The middlewares in front of a handler: shared/src/http/internalAuth.ts, healthCheck.ts and
-- correlationId.ts, shared/src/validation/validateRequest.ts, and rateLimiter.ts, whose limiter is
-- express-rate-limit's and so a parameter. A gate lets the request on or answers it.
pub mod Laws
use ecommerce_microservice.Prelude.{
  ℕ, String, Bool, Option, none, some, str_eq, if◌then◌else◌, List, [], ◌∷◌,
}
use ecommerce_microservice.Shared.Json.{Json}
use ecommerce_microservice.Shared.Errors.{ValidationError}
use ecommerce_microservice.Shared.Action.{Action, pure, raise, ◌>>=◌}
use ecommerce_microservice.Shared.Headers.{Headers, header, internal_api_key_header}
use ecommerce_microservice.Shared.ErrorHandler.{Reply, failure, ErrorResponseBody}

pub data Verdict : Type 0 where
  next : Verdict
  respond : ℕ → ErrorResponseBody → Verdict

abbrev pub Gate : Type 0 → Type 0
Gate W = Action W Verdict

module _ {W T : Type 0} where
  abbrev pub pass_on : Action W (Reply T) → Verdict → Action W (Reply T)
  pass_on handler next = handler
  pass_on handler (respond s b) = pure (failure s b)

  -- `router.patch(path, gate, handler)`
  abbrev pub guarded : Gate W → Action W (Reply T) → Action W (Reply T)
  guarded gate handler = gate >>= pass_on handler

  abbrev pub guarded_by : List (Gate W) → Action W (Reply T) → Action W (Reply T)
  guarded_by [] handler = handler
  guarded_by (g ∷ gs) handler = guarded g (guarded_by gs handler)

abbrev pub has_key : String → Option String → Bool
has_key expected none = Bool.false
has_key expected (some provided) = str_eq provided expected

abbrev pub forbidden : ErrorResponseBody
forbidden = record {
  code = "FORBIDDEN";
  message = "This endpoint is for internal service-to-service use only";
  details = none;
  correlation_id = none;
}

unfoldable pub internal_auth : {W : Type 0} → String → Headers → Gate W
unfolding header
internal_auth expected_key headers =
    if has_key expected_key (header internal_api_key_header headers)
    then pure next
    else pure (respond 403 forbidden)

-- What Joi's `validate` answers: the value with unknown keys stripped, or the details of a refusal.
pub data Validation (A : Type 0) : Type 0 where
  valid : A → Validation A
  invalid : Json → Validation A

module _ {W A : Type 0} where
  abbrev pub validated : Validation A → Action W A
  validated (valid a) = pure a
  validated (invalid details) = raise (ValidationError "Request validation failed" (some details))

  -- `validateRequest(schema, part)`: what stands in the part of the request afterwards.
  unfoldable pub validate_request : (Json → Validation A) → Json → Action W A
  validate_request schema part = validated (schema part)

pub record Health : Type 0 where
  pub service : String
  pub status : String
  pub timestamp : ℕ

-- `healthCheckHandler`: the status code and the body, which is sent whatever the code.
unfoldable pub health_check_handler : String → Bool → ℕ → ℕ × Health
health_check_handler service_name ready now = (
  (if ready then 200 else 503),
  record {
    service = service_name;
    status = (if ready then "ok" else "not_ready");
    timestamp = now;
  },
)

pub data HeaderValue : Type 0 where
  absent : HeaderValue
  one : String → HeaderValue
  several : List String → HeaderValue

-- `(Array.isArray(incoming) ? incoming[0] : incoming) ?? randomUUID()`
unfoldable pub correlation_id_of : HeaderValue → String → String
correlation_id_of absent fresh = fresh
correlation_id_of (one s) fresh = s
correlation_id_of (several []) fresh = fresh
correlation_id_of (several (s ∷ _)) fresh = s
