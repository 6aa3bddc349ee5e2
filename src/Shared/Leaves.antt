-- ===== src/Shared/Leaves.antt =====
-- Calls that leave a part of the world alone, and how such calls are put together. `view` is what the
-- part looks like.
use ecommerce_microservice.Prelude.{String, ◌≡◌, refl, ◌∙◌, inl, inr, Option}
use ecommerce_microservice.Shared.Json.{Json}
use ecommerce_microservice.Shared.Errors.{Error, app, foreign}
use ecommerce_microservice.Shared.Action.{Action, settled, ◌>>=◌}
use ecommerce_microservice.Shared.Logger.{Logger, LogLevel}
use ecommerce_microservice.Shared.ErrorHandler.{Reply, async_handler, log_error, logged_error}
use ecommerce_microservice.Shared.Middleware.{
  Gate, Validation, Verdict, next, respond, valid, invalid, guarded, pass_on, validated,
  validate_request,
}

-- However the call ends.
abbrev pub Leaves : {W X A : Type 0} → (W → X) → Action W A → Type 0
Leaves {W} view m = (w : W) → view (m w).1 ≡ view w

-- A logger that leaves it alone.
abbrev pub LeavesLogging : {W X : Type 0} → (W → X) → Logger W → Type 0
LeavesLogging {W} view logger = (l : LogLevel) (m : String) (w : W) → view (logger l m w) ≡ view w

module _ {W X : Type 0} (view : W → X) where
  pub Leaves-bind :
      {A B : Type 0} (m : Action W A) (f : A → Action W B)
      → Leaves view m
      → ((a : A) → Leaves view (f a))
      → Leaves view (m >>= f)
  Leaves-bind m f first second w =
      let same = first w in
      elim (settled (m w)) [
        | inl (a, u, e) ↦ rw e (second a u ∙ (rw e at same))
        | inr (x, u, e) ↦ rw e (rw e at same)
      ]

  validated-Leaves : {A : Type 0} (v : Validation A) → Leaves view (validated v)
  validated-Leaves (valid a) w = refl
  validated-Leaves (invalid details) w = refl

  pub validate_request-Leaves :
      {A : Type 0} (schema : Json → Validation A) (part : Json)
      → Leaves view (validate_request schema part)
  unfolding validate_request
  validate_request-Leaves schema part = validated-Leaves (schema part)

  pass_on-Leaves :
      {T : Type 0} (handler : Action W (Reply T))
      → Leaves view handler
      → (v : Verdict) → Leaves view (pass_on handler v)
  pass_on-Leaves handler leaves next w = leaves w
  pass_on-Leaves handler leaves (respond s b) w = refl

  pub guarded-Leaves :
      {T : Type 0} (gate : Gate W) (handler : Action W (Reply T))
      → Leaves view gate
      → Leaves view handler
      → Leaves view (guarded gate handler)
  guarded-Leaves gate handler waits leaves =
      Leaves-bind gate (pass_on handler) waits (pass_on-Leaves handler leaves)

  pub log_error-Leaves :
      (logger : Logger W)
      → LeavesLogging view logger
      → (c : Option String) (x : Error) (w : W) → view (log_error logger c x w) ≡ view w
  log_error-Leaves logger logs c (app e) w = logs LogLevel.warn (logged_error c (app e)) w
  log_error-Leaves logger logs c (foreign e) w = logs LogLevel.error (logged_error c (foreign e)) w

  pub async_handler-Leaves :
      {T : Type 0} (logger : Logger W) (c : Option String) (handler : Action W (Reply T))
      → LeavesLogging view logger
      → Leaves view handler
      → (w : W) → view (async_handler logger c handler w).1 ≡ view w
  unfolding async_handler
  async_handler-Leaves logger c handler logs leaves w =
      let same = leaves w in
      elim (settled (handler w)) [
        | inl (r, u, e) ↦ rw e (rw e at same)
        | inr (x, u, e) ↦ rw e (log_error-Leaves logger logs c x u ∙ (rw e at same))
      ]
