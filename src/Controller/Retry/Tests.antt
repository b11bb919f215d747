-- ===== src/Controller/Retry/Tests.antt =====
-- The retry handler of src/distributed/controller/retry-handler.ts on small inputs.
use mlx_serving.Prelude.{
  ℕ, zero, suc, ◌≡◌, ◌≤◌, ◌<◌, refl, arith, true, none, some, List, [], ◌∷◌, String, string_eq,
  length, All,
}
use mathlib.Core.List.{tail}
use mlx_serving.JsMap.{add}
use mlx_serving.Controller.Retry.{
  RetryConfig, Failure, Attempt, succeeded, failed, returned, thrown, is_retryable,
  retryable_errors, calculate_delay, exclude, attempt_from, execute_with_retry,
}
use mlx_serving.Controller.Retry.Outcomes.{
  last_answer, IsProper, execute_with_retry-IsProper, Excludes, attempt_from-Excludes,
}

program : Unit {0}
unfolding is_retryable retryable_errors calculate_delay exclude attempt_from execute_with_retry add
program = tt

abbrev config : RetryConfig
config = record {
  max_retries = 2;
  retry_delay_ms = 10;
  exponential_backoff = true;
  max_delay_ms = 15;
  retry_on_errors = none;
}

abbrev timeout_of : String → Failure
timeout_of w = record { code = some "WORKER_TIMEOUT"; worker_id = some w }

-- An executor that succeeds at its third call.
abbrev third : ℕ → List String → Attempt ℕ
third zero excluded = failed (timeout_of "w1")
third (suc zero) excluded = failed (timeout_of "w2")
third (suc (suc n)) excluded = succeeded 7

abbrev never : ℕ → List String → Attempt ℕ
never n excluded = failed (timeout_of "w1")

runs :
    (execute_with_retry config third ≡ record {
      outcome = returned 7;
      calls = [] ∷ ("w1" ∷ []) ∷ ("w1" ∷ "w2" ∷ []) ∷ [];
      delays = 10 ∷ 15 ∷ [];
    })
    × ((execute_with_retry config never).outcome ≡ thrown (timeout_of "w1") (some 2))
unfolding program
runs = (refl, refl)

execute_with_retry-IsProper_example :
    IsProper config
      (last_answer config never 0 (execute_with_retry config never).calls)
      (length (execute_with_retry config never).calls)
      (execute_with_retry config never).outcome
    × (length (execute_with_retry config never).calls ≤ 3)
    × (length (execute_with_retry config never).calls
        ≡ suc (length (execute_with_retry config never).delays))
execute_with_retry-IsProper_example = execute_with_retry-IsProper config never

attempt_from-Excludes_example :
    All (Excludes config third "w1") (tail (attempt_from config third 3 0 []).calls)
attempt_from-Excludes_example =
    attempt_from-Excludes config third 2 0 [] (timeout_of "w1") "w1" refl refl refl

fails_first :
    (n : ℕ) (y : List String)
    → n < 2
    → (x : Failure) × (third n y ≡ failed x) × (is_retryable config x ≡ true)
unfolding program
fails_first zero y h = (timeout_of "w1", refl, refl)
fails_first (suc zero) y h = (timeout_of "w2", refl, refl)
fails_first (suc (suc n)) y h = absurd (omega arith)
