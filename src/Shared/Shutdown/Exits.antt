-- ===== src/Shared/Shutdown/Exits.antt =====
-- How a shutdown ends.
use ecommerce_microservice.Prelude.{
  ℕ, ◌≡◌, refl, sym, inl, inr, Bool, true, false, Bool-cases, none, some, List, [], ◌∷◌, any, subst,
  arith,
}
use ecommerce_microservice.Shared.Logger.{info}
use ecommerce_microservice.Shared.Shutdown.{
  ShutdownDependencies, Phase, running, closing_server, closing_rest, exited, Event, signal,
  server_closed, rest_closed, timer_fired, Process, started, step, run, write, close_rest,
  close_server, dispatch,
}

any-later :
    (f : Event → Bool) (e : Event) (es : List Event) → any f es ≡ true → any f (e ∷ es) ≡ true
any-later f e es h = elim (Bool-cases (f e)) [ inl now ↦ rw now | inr other ↦ rw (other, h) ]

one-not_zero : ◌≡◌ {A = ℕ} 1 0 → ⊥
one-not_zero h = omega arith

abbrev pub is_signal : Event → Bool
is_signal (signal _) = true
is_signal _ = false

abbrev pub is_server_closed : Event → Bool
is_server_closed (server_closed none) = true
is_server_closed _ = false

abbrev pub is_rest_closed : Event → Bool
is_rest_closed (rest_closed none) = true
is_rest_closed _ = false

module _ (deps : ShutdownDependencies) where
  -- What an exit with code 0 still needs, by the phase.
  abbrev pub Needs : Phase → List Event → Type 0
  Needs running es =
      (any is_signal es ≡ true)
      × (deps.http_server ≡ true → any is_server_closed es ≡ true)
      × (deps.on_shutdown ≡ true → any is_rest_closed es ≡ true)
  Needs closing_server es =
      (any is_server_closed es ≡ true) × (deps.on_shutdown ≡ true → any is_rest_closed es ≡ true)
  Needs closing_rest es = any is_rest_closed es ≡ true
  Needs (exited n) es = n ≡ 0

  close_rest-Needs :
      (p : Process) (es : List Event)
      → Needs (close_rest deps p).phase es
      → deps.on_shutdown ≡ true
      → any is_rest_closed es ≡ true
  close_rest-Needs p es h given = rw given at h

  pub skips : deps.http_server ≡ false → (p : Process) → close_server deps p ≡ close_rest deps p
  skips none_given p = rw none_given

  close_server-Needs :
      (p : Process) (es : List Event)
      → Needs (close_server deps p).phase es
      → (deps.http_server ≡ true → any is_server_closed es ≡ true)
        × (deps.on_shutdown ≡ true → any is_rest_closed es ≡ true)
  close_server-Needs p es h = elim (Bool-cases deps.http_server) [
    | inl given ↦ let (closed, rest) = (rw given at h) in (λ _. closed, rest)
    | inr none_given ↦
        (λ given. cc, close_rest-Needs p es (subst (λ q. Needs q.phase es) (skips none_given p) h))
  ]

  later-Needs : (ph : Phase) (e : Event) (es : List Event) → Needs ph es → Needs ph (e ∷ es)
  later-Needs running e es (h, k, l) = (
    any-later is_signal e es h,
    λ given. any-later is_server_closed e es (k given),
    λ given. any-later is_rest_closed e es (l given),
  )
  later-Needs closing_server e es (h, k) =
      (any-later is_server_closed e es h, λ given. any-later is_rest_closed e es (k given))
  later-Needs closing_rest e es h = any-later is_rest_closed e es h
  later-Needs (exited n) e es h = h

  -- One event less.
  dispatch-Needs :
      (ph : Phase) (e : Event) (es : List Event) (p : Process)
      → p.phase ≡ ph
      → Needs (dispatch deps ph e p).phase es
      → Needs ph (e ∷ es)
  dispatch-Needs running (signal name) es p here h =
      let (k, l) =
        close_server-Needs (write info "Received shutdown signal, starting graceful shutdown" p) es
          h in
      (
        refl,
        λ given. any-later is_server_closed (signal name) es (k given),
        λ given. any-later is_rest_closed (signal name) es (l given),
      )
  dispatch-Needs closing_server (server_closed none) es p here h = (
    refl,
    λ given.
        close_rest-Needs (write info "HTTP server closed - no longer accepting new connections" p)
          es h given,
  )
  dispatch-Needs closing_server (server_closed (some x)) es p here h = absurd (one-not_zero h)
  dispatch-Needs closing_rest (rest_closed none) es p here h = refl
  dispatch-Needs closing_rest (rest_closed (some x)) es p here h = absurd (one-not_zero h)
  dispatch-Needs closing_server timer_fired es p here h = absurd (one-not_zero h)
  dispatch-Needs closing_rest timer_fired es p here h = absurd (one-not_zero h)
  dispatch-Needs ph e es p here h = later-Needs ph e es (subst (λ q. Needs q es) here h)

  run-Needs : (es : List Event) (p : Process) → (run deps p es).phase ≡ exited 0 → Needs p.phase es
  unfolding run step
  run-Needs [] p done = subst (λ q. Needs q []) (sym done) refl
  run-Needs (e ∷ es) p done = dispatch-Needs p.phase e es p refl (run-Needs es (step deps e p) done)

  -- Exit code 0 means that nothing was skipped: a signal was received, the HTTP server closed without
  -- an error if there is one, and the service's own shutdown, if it has one, ended without an error.
  pub exit-clean :
      (es : List Event)
      → (run deps started es).phase ≡ exited 0
      → (any is_signal es ≡ true)
        × (deps.http_server ≡ true → any is_server_closed es ≡ true)
        × (deps.on_shutdown ≡ true → any is_rest_closed es ≡ true)
  exit-clean es done = run-Needs es started done
