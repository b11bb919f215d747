-- ===== src/Core/CircuitBreaker/Invariant.antt =====
-- What holds of a circuit breaker between two events.
use mlx_serving.Prelude.{
  ℕ, ◌+◌, ◌≤◌, ◌<◌, ◌≡◌, ◌≢◌, refl, sym, subst, true, Option, none, some, List, [], ◌∷◌, length,
  arith, is_some, All,
}
use mlx_serving.Core.CircuitBreaker.{
  closed, open_, half_open, CircuitBreakerConfig, CircuitBreaker, new, cleanup_recent_failures,
  Event, starts, cleans_up, step, run,
}

-- The thresholds are positive.
pub record IsProper (c : CircuitBreakerConfig) : Type 0 where
  pub failure_positive : 0 < c.failure_threshold
  pub success_positive : 0 < c.half_open_success_threshold

abbrev pub due_after : ℕ → Option ℕ → Option ℕ
due_after timeout none = none
due_after timeout (some t) = some (t + timeout)

pub record IsValid (b : CircuitBreaker) : Type 0 where
  pub closed_below : b.state ≡ closed → length b.recent_failures < b.config.failure_threshold
  pub closed_clean :
      b.state ≡ closed
      → (b.half_open_attempts ≡ 0)
        × (b.half_open_successes ≡ 0)
        × (b.opened_at ≡ none)
        × (b.timer ≡ none)
  pub open_due :
      b.state ≡ open_
      → (is_some b.opened_at ≡ true)
        × (b.timer ≡ due_after b.config.recovery_timeout_ms b.opened_at)
  pub half_open_calls : b.state ≡ half_open → b.half_open_attempts ≤ b.config.half_open_max_calls
  pub half_open_below :
      b.state ≡ half_open → b.half_open_successes < b.config.half_open_success_threshold
  pub half_open_quiet : b.state ≡ half_open → b.timer ≡ none

new-IsValid : (c : CircuitBreakerConfig) (now : ℕ) → IsProper c → IsValid (new c now)
unfolding new
new-IsValid c now p = record {
  closed_below = λ _. p.failure_positive;
  closed_clean = λ _. (refl, refl, refl, refl);
  open_due = λ e. cc;
  half_open_calls = λ e. cc;
  half_open_below = λ e. cc;
  half_open_quiet = λ e. cc;
}

config-step : (b : CircuitBreaker) (now : ℕ) (e : Event) → (step b now e).config ≡ b.config
unfolding step cleanup_recent_failures
config-step b now starts = ground arith
config-step b now _ = ground arith

step-IsValid :
    (b : CircuitBreaker) (now : ℕ) (e : Event)
    → IsProper b.config
    → e ≢ cleans_up
    → IsValid b
    → IsValid (step b now e)
unfolding step cleanup_recent_failures
step-IsValid b now starts p n v = ground arith
step-IsValid b now cleans_up p n v = absurd (n refl)
step-IsValid b now _ p n v = ground arith

run-IsValid_from :
    (b : CircuitBreaker) (es : List (ℕ × Event))
    → IsProper b.config
    → All (λ e. e.1 ≢ cleans_up) es
    → IsValid b
    → IsValid (run b es)
unfolding run
run-IsValid_from b [] p n v = v
run-IsValid_from b ((now, e) ∷ es) p n v =
    run-IsValid_from (step b now e) es (subst IsProper (sym (config-step b now e)) p) n.1
      (step-IsValid b now e p n.0 v)

-- With positive thresholds, every breaker reached from a new one, whatever happens to it but a
-- `cleanup`, is valid: closed, it holds fewer recent failures than its threshold and no recovery
-- timer; open, its recovery timer is due one recovery timeout after it opened, so it cannot stay
-- open for want of a timer; half open, it has let at most `halfOpenMaxCalls` calls through and
-- counted fewer successes than its threshold.
pub run_circuit-IsValid :
    (c : CircuitBreakerConfig) (now : ℕ) (es : List (ℕ × Event))
    → IsProper c
    → All (λ e. e.1 ≢ cleans_up) es
    → IsValid (run (new c now) es)
unfolding new
run_circuit-IsValid c now es p n = run-IsValid_from (new c now) es p n (new-IsValid c now p)
