-- ===== src/Controller/Retry.antt =====
-- src/distributed/controller/retry-handler.ts. The executor is code outside the handler: its
-- result at the n-th call with a set of excluded workers is the parameter `executor`. The loop takes
-- fuel; with one round more than `maxRetries` it never runs out. The waits are recorded, and
-- logging is left out. A text that is empty or absent is false to JavaScript's `!` and `if`.
pub mod Outcomes
pub mod Delays
mod Tests
use mlx_serving.Prelude.{
  ℕ, zero, suc, ◌+◌, ◌-◌, ◌*◌, ◌^◌, min, Bool, true, false, not, Option, none, some, List, [], ◌∷◌,
  String, ◌==◌, string_eq, if◌then◌else◌, leb, ltb,
}
use mlx_serving.JsMap.{includes, add}

pub record RetryConfig : Type 0 where
  pub max_retries : ℕ
  pub retry_delay_ms : ℕ
  pub exponential_backoff : Bool
  pub max_delay_ms : ℕ
  pub retry_on_errors : Option (List String)

-- `RETRYABLE_ERRORS`.
abbrev pub default_retryable_errors : List String
default_retryable_errors =
    "WORKER_TIMEOUT" ∷ "WORKER_UNAVAILABLE" ∷ "WORKER_OVERLOADED" ∷ "CONNECTION_ERROR"
    ∷ "NATS_ERROR" ∷ []

-- What the handler reads of an error.
pub record Failure : Type 0 where
  pub code : Option String
  pub worker_id : Option String

pub data Attempt (T : Type 0) : Type 0 where
  succeeded : T → Attempt T
  failed : Failure → Attempt T

pub data Outcome (T : Type 0) : Type 0 where
  returned : T → Outcome T
  -- The error thrown, with the `retryCount` attached to it, if any.
  thrown : Failure → Option ℕ → Outcome T
  -- The `throw` behind the loop.
  fell_through : Outcome T
  out_of_fuel : Outcome T

-- A run: its outcome, the set of excluded workers that each call of the executor was given, and
-- the waits between the calls.
pub record Run (T : Type 0) : Type 0 where
  pub outcome : Outcome T
  pub calls : List (List String)
  pub delays : List ℕ

unfoldable pub retryable_errors : RetryConfig → List String
retryable_errors config = elim config.retry_on_errors [
  | none ↦ default_retryable_errors
  | some codes ↦ codes
]

unfoldable pub is_retryable : RetryConfig → Failure → Bool
unfolding retryable_errors
is_retryable config error = elim error.code [
  | none ↦ false
  | some code ↦ if code == "" then false else includes (retryable_errors config) code
]

-- It is called with an attempt that is 1 or more.
unfoldable pub calculate_delay : RetryConfig → ℕ → ℕ
calculate_delay config attempt =
    if config.exponential_backoff
    then min (config.retry_delay_ms * 2 ^ (attempt - 1)) config.max_delay_ms
    else config.retry_delay_ms

-- `if (err.workerId) { context.excludedWorkers.add(err.workerId) }`.
unfoldable pub exclude : Failure → List String → List String
exclude error excluded = elim error.worker_id [
  | none ↦ excluded
  | some worker_id ↦ if worker_id == "" then excluded else add worker_id excluded
]

module _ {T : Type 0} (config : RetryConfig) (executor : ℕ → List String → Attempt T) where
  -- The loop at `context.attempts` and `context.excludedWorkers`.
  unfoldable pub attempt_from : ℕ → ℕ → List String → Run T
  attempt_from zero attempts excluded = record { outcome = out_of_fuel; calls = []; delays = [] }
  attempt_from (suc fuel) attempts excluded =
      if leb attempts config.max_retries
      then elim (executor attempts excluded) [
        | succeeded result ↦ record {
          outcome = returned result;
          calls = excluded ∷ [];
          delays = [];
        }
        | failed error ↦
            let rest = attempt_from fuel (attempts + 1) (exclude error excluded) in
            if not (is_retryable config error)
            then record { outcome = thrown error none; calls = excluded ∷ []; delays = [] }
            else if ltb config.max_retries (attempts + 1)
            then record {
              outcome = thrown error (some (attempts + 1 - 1));
              calls = excluded ∷ [];
              delays = [];
            }
            else record {
              outcome = rest.outcome;
              calls = excluded ∷ rest.calls;
              delays = calculate_delay config (attempts + 1) ∷ rest.delays;
            }
      ]
      else record { outcome = fell_through; calls = []; delays = [] }

  unfoldable pub execute_with_retry : Run T
  unfolding attempt_from
  execute_with_retry = attempt_from (suc config.max_retries) 0 []
