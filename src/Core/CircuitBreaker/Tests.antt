-- ===== src/Core/CircuitBreaker/Tests.antt =====
-- The circuit breaker of src/core/circuit-breaker.ts on small inputs.
use mlx_serving.Prelude.{◌≡◌, refl, arith, some, [], ◌∷◌, inr}
use mlx_serving.Core.CircuitBreaker.{
  closed, open_, half_open, CircuitBreakerConfig, CircuitBreaker, new, start, rejected, on_success,
  on_failure, cleanup_recent_failures, drop_before, transition_to, fire, reset, force_open,
  force_close, cleanup, starts, succeeds, fails, fires, forces_open, step, run, get_retry_after_ms,
}
use mlx_serving.Core.CircuitBreaker.Invariant.{IsValid, run_circuit-IsValid}
use mlx_serving.Core.CircuitBreaker.Window.{on_failure-trips}
use mlx_serving.Core.CircuitBreaker.Recovery.{
  execute_all, execute_ok, execute_all-recovers, start-blocks,
}

program : Unit {0}
unfolding new start on_success on_failure cleanup_recent_failures drop_before transition_to fire
    reset force_open force_close cleanup step run execute_all execute_ok get_retry_after_ms
program = tt

-- The defaults of src/config/loader.ts for the half-open state: one call, two successes.
abbrev one_probe : CircuitBreakerConfig
one_probe = record {
  failure_threshold = 2;
  recovery_timeout_ms = 100;
  half_open_max_calls = 1;
  half_open_success_threshold = 2;
  failure_window_ms = 50;
}

abbrev tripped : CircuitBreaker
tripped = run (new one_probe 1) ((10, fails) ∷ (70, fails) ∷ (80, fails) ∷ [])

abbrev probing : CircuitBreaker
probing = run tripped ((180, fires) ∷ [])

-- The failure at 10 is no longer in the window at 70, so the breaker opens at 80 only.
trips_late :
    ((run (new one_probe 1) ((10, fails) ∷ (70, fails) ∷ [])).state ≡ closed)
    × (tripped.state ≡ open_)
    × (tripped.opened_at ≡ some 80)
    × (tripped.timer ≡ some 180)
unfolding program
trips_late = (refl, refl, refl, refl)

-- The timer does not fire before it is due.
fires_when_due : ((run tripped ((179, fires) ∷ [])).state ≡ open_) × (probing.state ≡ half_open)
unfolding program
fires_when_due = (refl, refl)

-- With two calls let through, two successes close the breaker.
closes :
    (execute_all
      (record probing { config = record one_probe { half_open_max_calls = 2 } })
      (200 ∷ 210 ∷ [])).state
    ≡ closed
unfolding program
closes = refl

execute_all-recovers_example : (execute_all probing (200 ∷ 210 ∷ 220 ∷ [])).state ≡ half_open
unfolding program
execute_all-recovers_example =
    execute_all-recovers probing (200 ∷ 210 ∷ 220 ∷ []) refl refl refl (omega arith)

run_circuit-IsValid_example : IsValid (
    run
      (new one_probe 1)
      ((10, fails) ∷ (20, fails) ∷ (120, fires) ∷ (130, starts) ∷ (140, fails) ∷ []))
unfolding program
run_circuit-IsValid_example =
    run_circuit-IsValid one_probe 1
      ((10, fails) ∷ (20, fails) ∷ (120, fires) ∷ (130, starts) ∷ (140, fails) ∷ [])
      (record { failure_positive = omega arith; success_positive = omega arith })
      ((λ e. cc), ((λ e. cc), ((λ e. cc), ((λ e. cc), ((λ e. cc), tt)))))

abbrev warned : CircuitBreaker
warned = run (new one_probe 1) ((70, fails) ∷ [])

on_failure-trips_example :
    ((on_failure warned 80).recent_failures ≡ 70 ∷ 80 ∷ []) × ((on_failure warned 80).state ≡ open_)
unfolding program
on_failure-trips_example = on_failure-trips warned 80 refl (tt, tt) (omega arith, tt)

start-blocks_example :
    (start (run tripped ((100, starts) ∷ (110, succeeds) ∷ (120, forces_open) ∷ [])) 150).1
    ≡ rejected open_ 30
unfolding program
start-blocks_example =
    start-blocks tripped 80 ((100, starts) ∷ (110, succeeds) ∷ (120, forces_open) ∷ []) 150
      (omega arith) (refl, refl, inr refl) (omega arith, (omega arith, (omega arith, tt)))
      (omega arith)
