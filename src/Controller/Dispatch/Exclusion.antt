-- ===== src/Controller/Dispatch/Exclusion.antt =====
-- Whom the retry handler excludes when the controller is its executor.
use mlx_serving.Prelude.{
  ℕ, zero, suc, ◌+◌, ◌≡◌, Option, none, List, [], String, All, arith, inl, inr, subst,
}
use mlx_serving.Controller.Workers.{WorkerInfo}
use mlx_serving.Controller.Retry.{
  RetryConfig, Attempt, succeeded, failed, attempt_from, execute_with_retry, exclude,
}
use mlx_serving.Controller.Retry.Outcomes.{Attempt-cases}
use mlx_serving.Controller.Dispatch.{
  Controller, Reply, execute_attempt, result_of, send_request_to_worker, selection_error,
}

abbrev NamesNone : {T : Type 0} → Attempt T → Type 0
NamesNone (succeeded t) = Unit
NamesNone (failed x) = x.worker_id ≡ none

module _ {T : Type 0} where
  result_of-NamesNone : (reply : Reply T) → NamesNone (result_of reply)
  unfolding result_of
  result_of-NamesNone reply = ground arith

  execute_attempt-NamesNone :
      (c : Controller) (excluded : List String) (model_id : String) (session_id : Option String)
      (reply : WorkerInfo → Reply T) (now later : ℕ)
      → NamesNone (execute_attempt c excluded model_id session_id reply now later).1
  unfolding execute_attempt send_request_to_worker selection_error result_of
  execute_attempt-NamesNone c excluded model_id session_id reply now later = ground arith

module _ {T : Type 0} (config : RetryConfig) (executor : ℕ → List String → Attempt T) where
  attempt_from-none :
      (fuel attempts : ℕ) (excluded : List String)
      → ((n : ℕ) (y : List String) → NamesNone (executor n y))
      → All (λ y. y ≡ excluded) (attempt_from config executor fuel attempts excluded).calls
  unfolding attempt_from exclude
  attempt_from-none zero attempts excluded h = tt
  attempt_from-none (suc fuel) attempts excluded h =
      elim (Attempt-cases (executor attempts excluded)) [
        | inl (t, e) ↦ ground arith
        | inr (x, e) ↦
            let anonymous : x.worker_id ≡ none = subst NamesNone e (h attempts excluded) in
            ground (arith, attempt_from-none fuel (attempts + 1) excluded h)
      ]

-- When the executor is the controller's, whatever the states it is called in, the replies and
-- the times, every call of it is given an empty set of excluded workers: no error that the
-- controller throws names the worker that failed.
pub execute_with_retry-excludes_none :
    {T : Type 0} (config : RetryConfig) (state : ℕ → List String → Controller) (model_id : String)
    (session_id : Option String) (reply : ℕ → WorkerInfo → Reply T) (time : ℕ → ℕ × ℕ)
    → All
        (λ excluded. excluded ≡ [])
        (execute_with_retry config (λ n excluded.
          (execute_attempt
            (state n excluded)
            excluded
            model_id
            session_id
            (reply n)
            (time n).0
            (time n).1).1)).calls
unfolding execute_with_retry
execute_with_retry-excludes_none config state model_id session_id reply time =
    attempt_from-none config _ (suc config.max_retries) 0 [] (λ n y.
      execute_attempt-NamesNone (state n y) y model_id session_id (reply n) (time n).0 (time n).1)
