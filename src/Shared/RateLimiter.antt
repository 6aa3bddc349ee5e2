-- ===== src/Shared/RateLimiter.antt =====
-- shared/src/http/rateLimiter.ts: the options that are given to express-rate-limit, and the limiters
-- that the routes are mounted with.
use ecommerce_microservice.Prelude.{ℕ, Bool, true, false, Option, none, some}
use ecommerce_microservice.Shared.ErrorHandler.{ErrorResponseBody}

pub record RateLimitOptions : Type 0 where
  pub window_ms : Option ℕ
  pub max : Option ℕ

-- What `rateLimit` takes; `message` is the body of the answer over the limit.
pub record RateLimitSettings : Type 0 where
  pub window_ms : ℕ
  pub limit : ℕ
  pub standard_headers : Bool
  pub legacy_headers : Bool
  pub message : ErrorResponseBody

abbrev pub given_or : ℕ → Option ℕ → ℕ
given_or n none = n
given_or n (some m) = m

unfoldable pub create_rate_limiter : RateLimitOptions → RateLimitSettings
create_rate_limiter options = record {
  window_ms = given_or 60000 options.window_ms;
  limit = given_or 30 options.max;
  standard_headers = true;
  legacy_headers = false;
  message = record {
    code = "RATE_LIMITED";
    message = "Too many requests - please slow down";
    details = none;
    correlation_id = none;
  };
}
