-- ===== src/Shared/Shutdown.antt =====
-- shared/src/http/gracefulShutdown.ts: the process as a machine that is moved by signals, by the two
-- promises that it waits for and by its timer. `server.close` and `onShutdown` are not part of the
-- file: how they settle are events.
pub mod Exits
pub mod Timer
mod Tests
use ecommerce_microservice.Prelude.{
  ℕ, String, Bool, true, false, Option, none, some, List, [], ◌∷◌, if◌then◌else◌,
}
use ecommerce_microservice.Shared.Errors.{Error}
use ecommerce_microservice.Shared.Logger.{LogLevel, info, error}

-- Which of the optional dependencies were given.
pub record ShutdownDependencies : Type 0 where
  pub http_server : Bool
  pub on_shutdown : Bool

-- Where `shutdown` stands: not called, at one of its two waits, or past `process.exit`.
pub data Phase : Type 0 where
  running closing_server closing_rest : Phase
  exited : ℕ → Phase

pub data Event : Type 0 where
  signal : String → Event
  server_closed : Option Error → Event
  rest_closed : Option Error → Event
  timer_fired : Event

-- The log lines stand last first.
pub record Process : Type 0 where
  pub phase : Phase
  pub lines : List (LogLevel × String)

abbrev pub started : Process
started = record { phase = running; lines = [] }

abbrev pub write : LogLevel → String → Process → Process
write level line p = record p { lines = (level, line) ∷ p.lines }

abbrev pub go_to : Phase → Process → Process
go_to phase p = record p { phase = phase }

-- The end of the `try`, and the `catch`.
abbrev pub complete : Process → Process
complete p = go_to (exited 0) (write info "Graceful shutdown complete" p)

abbrev pub give_up : Process → Process
give_up p = go_to (exited 1) (write error "Error during graceful shutdown" p)

-- What the timer runs.
abbrev pub force_exit : Process → Process
force_exit p = go_to (exited 1) (write error "Graceful shutdown timed out - forcing exit" p)

module _ (deps : ShutdownDependencies) where
  abbrev pub close_rest : Process → Process
  close_rest p = if deps.on_shutdown then go_to closing_rest p else complete p

  abbrev pub close_server : Process → Process
  close_server p = if deps.http_server then go_to closing_server p else close_rest p

  abbrev pub begin_shutdown : Process → Process
  begin_shutdown p =
      close_server (write info "Received shutdown signal, starting graceful shutdown" p)

  abbrev pub server_settled : Option Error → Process → Process
  server_settled none p =
      close_rest (write info "HTTP server closed - no longer accepting new connections" p)
  server_settled (some e) p = give_up p

  abbrev pub rest_settled : Option Error → Process → Process
  rest_settled none p = complete p
  rest_settled (some e) p = give_up p

  -- A signal while shutting down returns at once, and nothing runs after the exit.
  abbrev pub dispatch : Phase → Event → Process → Process
  dispatch running (signal name) p = begin_shutdown p
  dispatch closing_server (server_closed r) p = server_settled r p
  dispatch closing_rest (rest_closed r) p = rest_settled r p
  dispatch closing_server timer_fired p = force_exit p
  dispatch closing_rest timer_fired p = force_exit p
  dispatch _ _ p = p

  unfoldable pub step : Event → Process → Process
  step e p = dispatch p.phase e p

  unfoldable pub run : Process → List Event → Process
  run p [] = p
  run p (e ∷ es) = run (step e p) es
