-- ===== src/Shared/HttpClient/Options.antt =====
-- The constructor of shared/src/http/HttpClient.ts: its options, what it gives to axios and opossum,
-- and the handlers of the breaker's events.
use ecommerce_microservice.Prelude.{ℕ, String, Bool, false, Option, none, some}
use ecommerce_microservice.Shared.Logger.{Logger, LogLevel}
use ecommerce_microservice.Shared.HttpClient.{HttpClient, new_http_client}

-- The threshold, a fraction in the source, is counted in hundredths.
pub record HttpClientOptions (W : Type 0) : Type 0 where
  pub base_url : String
  pub service_name : String
  pub logger : Logger W
  pub timeout_ms : Option ℕ
  pub max_retries : Option ℕ
  pub internal_api_key : Option String
  pub circuit_breaker_error_threshold : Option ℕ
  pub circuit_breaker_reset_timeout_ms : Option ℕ

pub record AxiosSettings : Type 0 where
  pub base_url : String
  pub timeout : ℕ

-- `timeout` is whether opossum has a timeout of its own.
pub record BreakerSettings : Type 0 where
  pub error_threshold_percentage : ℕ
  pub reset_timeout : ℕ
  pub timeout : Bool

abbrev pub or_default : ℕ → Option ℕ → ℕ
or_default n none = n
or_default n (some m) = m

module _ {W : Type 0} (options : HttpClientOptions W) where
  -- The fields that the calls read, with the timer of the runtime.
  unfoldable pub client_of : (ℕ → W → W) → HttpClient W
  client_of wait =
      new_http_client options.service_name options.logger wait options.max_retries
        options.internal_api_key

  unfoldable pub axios_settings : AxiosSettings
  axios_settings = record {
    base_url = options.base_url;
    timeout = or_default 5000 options.timeout_ms;
  }

  unfoldable pub breaker_settings : BreakerSettings
  breaker_settings = record {
    error_threshold_percentage = or_default 50 options.circuit_breaker_error_threshold;
    reset_timeout = or_default 10000 options.circuit_breaker_reset_timeout_ms;
    timeout = false;
  }

pub data BreakerEvent : Type 0 where
  opened half_opened closed : BreakerEvent

-- What the handlers log.
unfoldable pub on_breaker_event : {W : Type 0} → Logger W → BreakerEvent → W → W
on_breaker_event logger opened w = logger LogLevel.error "Circuit breaker OPEN - failing fast" w
on_breaker_event logger half_opened w =
    logger LogLevel.warn "Circuit breaker HALF-OPEN - trial request" w
on_breaker_event logger closed w =
    logger LogLevel.info "Circuit breaker CLOSED - service recovered" w
