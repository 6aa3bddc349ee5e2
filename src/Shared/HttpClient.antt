-- ===== src/Shared/HttpClient.antt =====
-- shared/src/http/HttpClient.ts: calls to another service, with retries behind a circuit breaker.
-- axios (`send`), opossum (`fire`), timers and the logger are parameters. `T` is the type to which
-- the source casts the answer's data.
pub mod Options
pub mod Retry
pub mod Failures
pub mod Answers
pub mod Quiet
use ecommerce_microservice.Prelude.{
  ℕ, zero, suc, ◌+◌, ◌*◌, ◌^◌, String, Bool, true, false, ◌&&◌, Option, none, some, ltb, leb, ◌==◌,
  if◌then◌else◌,
}
use ecommerce_microservice.Shared.Json.{Json}
use ecommerce_microservice.Shared.Errors.{
  Error, ErrorResponse, UpstreamServiceError, is_upstream, message_of, response_of,
}
use ecommerce_microservice.Shared.Action.{Action, raise, effect, try_catch, ◌>>◌}
use ecommerce_microservice.Shared.Logger.{Logger, LogLevel}
use ecommerce_microservice.Shared.Headers.{
  Headers, set_header, truthy, correlation_id_header, internal_api_key_header,
}

pub data Method : Type 0 where
  get post patch : Method

pub record HttpRequest (B : Type 0) : Type 0 where
  pub method : Method
  pub path : String
  pub body : B
  pub headers : Headers

-- The fields of the class that its calls read, and the timer.
pub record HttpClient (W : Type 0) : Type 0 where
  pub service_name : String
  pub max_retries : ℕ
  pub internal_api_key : Option String
  pub logger : Logger W
  pub wait : ℕ → W → W

-- The axios instance and the breaker, at one type of bodies and one of answers.
pub record Transport (W B T : Type 0) : Type 0 where
  pub send : HttpRequest B → Action W T
  pub fire : Action W T → Action W T

abbrev pub set_optional : String → Option String → Headers → Headers
set_optional k none hs = hs
set_optional k (some v) hs = if truthy (some v) then set_header k v hs else hs

-- `status !== undefined && status >= 400 && status < 500`
abbrev pub is_client_status : Option ErrorResponse → Bool
is_client_status none = false
is_client_status (some r) = leb 400 r.status && ltb r.status 500

abbrev pub is_client_error : Error → Bool
is_client_error e = is_client_status (response_of e)

abbrev pub payload_of : Option ErrorResponse → Option Json
payload_of none = none
payload_of (some r) = some r.payload

abbrev pub retry_message : String
retry_message = "Retrying upstream call after transient failure"

-- The constructor's defaults: three retries.
abbrev pub retries_or_default : Option ℕ → ℕ
retries_or_default none = 3
retries_or_default (some n) = n

module _ {W : Type 0} where
  unfoldable pub new_http_client :
      String → Logger W → (ℕ → W → W) → Option ℕ → Option String → HttpClient W
  new_http_client service_name logger wait max_retries internal_api_key = record {
    service_name = service_name;
    max_retries = retries_or_default max_retries;
    internal_api_key = internal_api_key;
    logger = logger;
    wait = wait;
  }

  unfoldable pub build_headers : HttpClient W → Option String → Headers → Headers
  build_headers c correlation_id given =
      set_optional internal_api_key_header c.internal_api_key
        (set_optional correlation_id_header correlation_id given)

  -- The error that a call ends with: `lastError` may be unset in the source's type only.
  abbrev pub upstream_of : HttpClient W → Option Error → Error
  upstream_of c none = UpstreamServiceError c.service_name "Unknown error" none
  upstream_of c (some e) =
      UpstreamServiceError c.service_name (message_of e) (payload_of (response_of e))

  -- The log line and the pause of `200 * 2^attempt` milliseconds between two attempts.
  abbrev pub back_off : HttpClient W → ℕ → W → W
  back_off c attempt w = c.wait (200 * 2 ^ attempt) (c.logger LogLevel.warn retry_message w)

module _ {W T : Type 0} where
  -- The `for` loop, by the rounds that are left.
  unfoldable pub retry_loop : HttpClient W → Action W T → ℕ → ℕ → Option Error → Action W T
  retry_loop c request zero attempt last = raise (upstream_of c last)
  retry_loop c request (suc rounds) attempt last = try_catch request λ e.
      if is_client_error e
      then raise (upstream_of c (some e))
      else if attempt == c.max_retries
      then raise (upstream_of c (some e))
      else (effect (back_off c attempt) >> retry_loop c request rounds (attempt + 1) (some e))

  unfoldable pub execute_with_retry : HttpClient W → Action W T → Action W T
  execute_with_retry c request = retry_loop c request (suc c.max_retries) 0 none

  abbrev pub as_upstream : HttpClient W → Error → Action W T
  as_upstream c e =
      if is_upstream e
      then raise e
      else raise (UpstreamServiceError c.service_name (message_of e) none)

module _ {W B T : Type 0} where
  unfoldable pub fire_breaker : HttpClient W → Transport W B T → Action W T → Action W T
  fire_breaker c t request = try_catch (t.fire (execute_with_retry c request)) (as_upstream c)

  -- `post`, `patch` and `get`, which differ in the method and in having a body.
  unfoldable pub call :
      Method → HttpClient W → Transport W B T → String → B → Option String → Headers → Action W T
  unfolding fire_breaker build_headers
  call m c t path body correlation_id given = fire_breaker c t (
      t.send (record {
        method = m;
        path = path;
        body = body;
        headers = build_headers c correlation_id given;
      }))
