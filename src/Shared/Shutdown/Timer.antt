-- ===== src/Shared/Shutdown/Timer.antt =====
-- What the timer of a shutdown guarantees.
use ecommerce_microservice.Prelude.{
  ℕ, String, ◌≡◌, refl, sym, inl, inr, Bool-cases, none, some, List, [], ◌∷◌, ◌++◌, subst,
}
use ecommerce_microservice.Shared.Logger.{info}
use ecommerce_microservice.Shared.Shutdown.Exits.{skips}
use ecommerce_microservice.Shared.Shutdown.{
  ShutdownDependencies, Phase, running, closing_server, closing_rest, exited, Event, signal,
  server_closed, rest_closed, timer_fired, Process, started, step, run, write, close_rest,
  close_server, dispatch,
}

module _ (deps : ShutdownDependencies) where
  -- A phase that only an exit follows when the timer fires.
  abbrev IsBegun : Phase → Type 0
  IsBegun running = ⊥
  IsBegun _ = Unit

  abbrev IsExited : Phase → Type 0
  IsExited (exited n) = Unit
  IsExited _ = ⊥

  close_rest-IsBegun : (p : Process) → IsBegun (close_rest deps p).phase
  close_rest-IsBegun p = elim (Bool-cases deps.on_shutdown) [
    | inl given ↦ rw given tt
    | inr none_given ↦ rw none_given tt
  ]

  close_server-IsBegun : (p : Process) → IsBegun (close_server deps p).phase
  close_server-IsBegun p = elim (Bool-cases deps.http_server) [
    | inl given ↦ rw given tt
    | inr none_given ↦
        subst (λ q. IsBegun q.phase) (sym (skips deps none_given p)) (close_rest-IsBegun p)
  ]

  dispatch-IsBegun :
      (ph : Phase) (e : Event) (p : Process)
      → p.phase ≡ ph
      → IsBegun ph
      → IsBegun (dispatch deps ph e p).phase
  dispatch-IsBegun closing_server (server_closed none) p here h =
      close_rest-IsBegun (write info "HTTP server closed - no longer accepting new connections" p)
  dispatch-IsBegun closing_server (server_closed (some x)) p here h = tt
  dispatch-IsBegun closing_rest (rest_closed none) p here h = tt
  dispatch-IsBegun closing_rest (rest_closed (some x)) p here h = tt
  dispatch-IsBegun closing_server timer_fired p here h = tt
  dispatch-IsBegun closing_rest timer_fired p here h = tt
  dispatch-IsBegun running e p here h = absurd h
  dispatch-IsBegun ph e p here h = subst IsBegun (sym here) h

  run-IsBegun : (es : List Event) (p : Process) → IsBegun p.phase → IsBegun (run deps p es).phase
  unfolding run step
  run-IsBegun [] p h = h
  run-IsBegun (e ∷ es) p h = run-IsBegun es (step deps e p) (dispatch-IsBegun p.phase e p refl h)

  signal-IsBegun :
      (ph : Phase) (name : String) (p : Process)
      → p.phase ≡ ph
      → IsBegun (dispatch deps ph (signal name) p).phase
  signal-IsBegun running name p here =
      close_server-IsBegun (write info "Received shutdown signal, starting graceful shutdown" p)
  signal-IsBegun closing_server name p here = subst IsBegun (sym here) tt
  signal-IsBegun closing_rest name p here = subst IsBegun (sym here) tt
  signal-IsBegun (exited n) name p here = subst IsBegun (sym here) tt

  timer-IsExited :
      (ph : Phase) (p : Process)
      → p.phase ≡ ph
      → IsBegun ph
      → IsExited (dispatch deps ph timer_fired p).phase
  timer-IsExited running p here h = absurd h
  timer-IsExited closing_server p here h = tt
  timer-IsExited closing_rest p here h = tt
  timer-IsExited (exited n) p here h = subst IsExited (sym here) tt

  exit-final : (ph : Phase) (e : Event) (p : Process) → IsExited ph → dispatch deps ph e p ≡ p
  exit-final (exited n) e p h = refl
  exit-final running e p h = absurd h
  exit-final closing_server e p h = absurd h
  exit-final closing_rest e p h = absurd h

  run-stopped : (es : List Event) (p : Process) → IsExited p.phase → run deps p es ≡ p
  unfolding run step
  run-stopped [] p h = refl
  run-stopped (e ∷ es) p h = rw (exit-final p.phase e p h, run-stopped es p h)

  run-++ : (es fs : List Event) (p : Process) → run deps p (es ++ fs) ≡ run deps (run deps p es) fs
  unfolding run
  run-++ [] fs p = refl
  run-++ (e ∷ es) fs p = run-++ es fs (step deps e p)

  exited-code : (ph : Phase) → IsExited ph → (n : ℕ) × (ph ≡ exited n)
  exited-code (exited n) h = (n, refl)
  exited-code running h = absurd h
  exited-code closing_server h = absurd h
  exited-code closing_rest h = absurd h

  -- Once a signal was received, whatever happened before and since, the process has exited as soon as
  -- the timer fires, and nothing that comes later changes it.
  pub timer-exits :
      (before since later : List Event) (name : String)
      → let shut = run deps started (before ++ signal name ∷ (since ++ (timer_fired ∷ []))) in
        ((n : ℕ) × (shut.phase ≡ exited n)) × (run deps shut later ≡ shut)
  unfolding run step
  timer-exits before since later name =
      let p = run deps started before in
      let begun = run deps (step deps (signal name) p) since in
      let same : run deps started (before ++ signal name ∷ (since ++ (timer_fired ∷ [])))
          ≡ step deps timer_fired begun =
        rw (
          run-++ before (signal name ∷ (since ++ (timer_fired ∷ []))) started,
          run-++ since (timer_fired ∷ []) (step deps (signal name) p),
        ) in
      let h = run-IsBegun since (step deps (signal name) p) (signal-IsBegun p.phase name p refl) in
      let ends = timer-IsExited begun.phase begun refl h in
      rw same (
        exited-code (step deps timer_fired begun).phase ends,
        run-stopped later (step deps timer_fired begun) ends,
      )
