-- ===== src/Controller/Breaker/Invariant.antt =====
-- What holds of a worker's circuit breaker between two calls.
use mlx_serving.Prelude.{ℕ, ◌<◌, ◌≡◌, true, none, List, [], ◌∷◌, String, is_some, arith, subst, sym}
use mlx_serving.Controller.Breaker.{
  closed, open_, half_open, Config, Breaker, new, Call, asks, step, run,
}

pub record IsValid (b : Breaker) : Type 0 where
  pub closed_below : b.state ≡ closed → b.failures < b.config.failure_threshold
  pub closed_clean : b.state ≡ closed → (b.successes ≡ 0) × (b.opened_at ≡ none)
  pub open_stamped : b.state ≡ open_ → is_some b.opened_at ≡ true
  pub half_open_below : b.state ≡ half_open → b.successes < b.config.success_threshold
  pub half_open_clean : b.state ≡ half_open → b.failures ≡ 0

-- The thresholds are positive.
pub record IsProper (c : Config) : Type 0 where
  pub failure_positive : 0 < c.failure_threshold
  pub success_positive : 0 < c.success_threshold

pub new-IsValid : (id : String) (c : Config) → IsProper c → IsValid (new id c)
unfolding new
new-IsValid id c p = ground arith

pub config-step : (b : Breaker) (now : ℕ) (c : Call) → (step b now c).config ≡ b.config
unfolding step
config-step b now asks = ground arith
config-step b now _ = ground arith

pub step-IsValid :
    (b : Breaker) (now : ℕ) (c : Call) → IsProper b.config → IsValid b → IsValid (step b now c)
unfolding step
step-IsValid b now asks p v = ground arith
step-IsValid b now _ p v = ground arith

run-IsValid_from :
    (b : Breaker) (cs : List (ℕ × Call)) → IsProper b.config → IsValid b → IsValid (run b cs)
unfolding run
run-IsValid_from b [] p v = v
run-IsValid_from b ((now, c) ∷ cs) p v =
    run-IsValid_from (step b now c) cs (subst IsProper (sym (config-step b now c)) p)
      (step-IsValid b now c p v)

-- With positive thresholds, every breaker reached from a new one by any calls at any times is
-- valid: closed, it has counted fewer failures than its threshold, no success and no opening
-- time; open, it has the time at which it opened; half open, it has counted fewer successes than
-- its threshold and no failure.
pub run_breaker-IsValid :
    (id : String) (c : Config) (cs : List (ℕ × Call)) → IsProper c → IsValid (run (new id c) cs)
unfolding new
run_breaker-IsValid id c cs p = run-IsValid_from (new id c) cs p (new-IsValid id c p)
