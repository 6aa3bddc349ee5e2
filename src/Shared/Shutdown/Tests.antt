-- ===== src/Shared/Shutdown/Tests.antt =====
-- A service with an HTTP server and a connection to close.
use ecommerce_microservice.Prelude.{ℕ, ◌≡◌, refl, true, none, List, [], ◌∷◌, ◌++◌, any}
use ecommerce_microservice.Shared.Shutdown.{
  ShutdownDependencies, Event, signal, server_closed, rest_closed, timer_fired, exited, started,
  step, run,
}
use ecommerce_microservice.Shared.Shutdown.Exits.{
  is_signal, is_server_closed, is_rest_closed, exit-clean,
}
use ecommerce_microservice.Shared.Shutdown.Timer.{timer-exits}

abbrev service : ShutdownDependencies
service = record { http_server = true; on_shutdown = true }

abbrev orderly : List Event
orderly =
    signal "SIGTERM" ∷ signal "SIGINT" ∷ server_closed none ∷ rest_closed none ∷ timer_fired ∷ []

ends_well : (run service started orderly).phase ≡ exited 0
unfolding run step
ends_well = refl

exit-clean_example :
    (any is_signal orderly ≡ true)
    × (service.http_server ≡ true → any is_server_closed orderly ≡ true)
    × (service.on_shutdown ≡ true → any is_rest_closed orderly ≡ true)
exit-clean_example = exit-clean service orderly ends_well

-- A server that never closes.
timer-exits_example :
    let shut = run service started ([] ++ signal "SIGTERM" ∷ ([] ++ (timer_fired ∷ []))) in
    ((n : ℕ) × (shut.phase ≡ exited n)) × (run service shut (server_closed none ∷ []) ≡ shut)
timer-exits_example = timer-exits service [] [] (server_closed none ∷ []) "SIGTERM"
