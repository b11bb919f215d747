-- ===== src/Controller/Retry/Outcomes.antt =====
-- How a run of the retry handler ends, how often it calls the executor, and whom it excludes.
use mlx_serving.Prelude.{
  Option, ◌∷◌, ℕ, zero, suc, ◌+◌, ◌≤◌, ◌<◌, ◌≡◌, refl, true, false, none, some, List, [], String,
  ◌==◌, string_eq, ltb, length, All, arith, Bool-cases, inl, inr, ◌⊎◌, ==_refl, Option-cases,
  ltb→lt, tests, subst, sym,
}
use mathlib.Core.List.{tail}
use mlx_serving.JsMap.{includes, includes-add}
use mlx_serving.Controller.Retry.{
  RetryConfig, Failure, Attempt, succeeded, failed, Outcome, returned, thrown, fell_through,
  out_of_fuel, is_retryable, exclude, attempt_from, execute_with_retry,
}

-- The outcome of a run in which the executor gave the answer at its last call, by which it had been
-- called so often. An error carries a number of retries only after the last retry.
abbrev pub IsProper : {T : Type 0} → RetryConfig → Option (Attempt T) → ℕ → Outcome T → Type 0
IsProper config answer calls (returned result) = answer ≡ some (succeeded result)
IsProper config answer calls (thrown error none) =
    (answer ≡ some (failed error)) × (is_retryable config error ≡ false)
IsProper config answer calls (thrown error (some n)) =
    (answer ≡ some (failed error))
    × (is_retryable config error ≡ true)
    × (n ≡ config.max_retries)
    × (calls ≡ config.max_retries + 1)
IsProper config answer calls fell_through = ⊥
IsProper config answer calls out_of_fuel = ⊥

pub Attempt-cases :
    {T : Type 0} (a : Attempt T) → ((t : T) × (a ≡ succeeded t)) ⊎ ((e : Failure) × (a ≡ failed e))
Attempt-cases (succeeded t) = inl (t, refl)
Attempt-cases (failed e) = inr (e, refl)

module _ {T : Type 0} (config : RetryConfig) (executor : ℕ → List String → Attempt T) where
  -- What the executor answered at the last of these calls, the first of which is the `n`-th.
  unfoldable pub last_answer : ℕ → List (List String) → Option (Attempt T)
  last_answer n [] = none
  last_answer n (excluded ∷ calls) = elim (last_answer (n + 1) calls) [
    | none ↦ some (executor n excluded)
    | some answer ↦ some answer
  ]

  last_answer-cons :
      (n : ℕ) (excluded : List String) (calls : List (List String)) (a : Attempt T)
      → last_answer (n + 1) calls ≡ some a
      → last_answer n (excluded ∷ calls) ≡ some a
  unfolding last_answer
  last_answer-cons n excluded calls a e = rw e refl

  IsProper-cons :
      (n : ℕ) (excluded : List String) (calls : List (List String)) (o : Outcome T)
      → IsProper config (last_answer (n + 1) calls) (length calls + (n + 1)) o
      → IsProper config (last_answer n (excluded ∷ calls)) (suc (length calls) + n) o
  IsProper-cons n y ys (returned t) h = last_answer-cons n y ys (succeeded t) h
  IsProper-cons n y ys (thrown x none) h = (last_answer-cons n y ys (failed x) h.0, h.1)
  IsProper-cons n y ys (thrown x (some m)) h =
      (last_answer-cons n y ys (failed x) h.0, h.1, h.2, omega (arith, h.3))
  IsProper-cons n y ys fell_through h = h
  IsProper-cons n y ys out_of_fuel h = h

  attempt_from-IsProper :
      (fuel attempts : ℕ) (excluded : List String)
      → attempts ≤ config.max_retries
      → config.max_retries < fuel + attempts
      → IsProper config
          (last_answer attempts (attempt_from config executor fuel attempts excluded).calls)
          (length (attempt_from config executor fuel attempts excluded).calls + attempts)
          (attempt_from config executor fuel attempts excluded).outcome
        × (length (attempt_from config executor fuel attempts excluded).calls + attempts
            ≤ config.max_retries + 1)
        × (length (attempt_from config executor fuel attempts excluded).calls
            ≡ suc (length (attempt_from config executor fuel attempts excluded).delays))
  unfolding attempt_from last_answer
  attempt_from-IsProper zero attempts excluded l h = absurd (omega arith)
  attempt_from-IsProper (suc fuel) attempts excluded l h =
      elim (Attempt-cases (executor attempts excluded)) [
        | inl (t, e) ↦ ground arith
        | inr (x, e) ↦ elim (Bool-cases (is_retryable config x)) [
          | inl r ↦ elim (Bool-cases (ltb config.max_retries (attempts + 1))) [
            | inl f ↦ ground arith
            | inr f ↦
                let rest = attempt_from config executor fuel (attempts + 1) (exclude x excluded) in
                let p =
                  attempt_from-IsProper fuel (attempts + 1) (exclude x excluded) (ground (arith, f))
                    (omega arith) in
                ground (arith, p, IsProper-cons attempts excluded rest.calls rest.outcome p.0)
          ]
          | inr r ↦ ground arith
        ]
      ]

  -- The handler always ends with what the executor answered at its last call: it returns the result,
  -- or passes on the error. An error that is not retryable carries no number of retries; one that is
  -- retryable is passed on only after `maxRetries + 1` calls, and reports `maxRetries` retries. The
  -- executor is called at most `maxRetries + 1` times, with one wait between any two calls.
  pub execute_with_retry-IsProper :
      IsProper config
        (last_answer 0 (execute_with_retry config executor).calls)
        (length (execute_with_retry config executor).calls)
        (execute_with_retry config executor).outcome
      × (length (execute_with_retry config executor).calls ≤ config.max_retries + 1)
      × (length (execute_with_retry config executor).calls
          ≡ suc (length (execute_with_retry config executor).delays))
  unfolding execute_with_retry
  execute_with_retry-IsProper =
      let (a, b, c) =
        attempt_from-IsProper (suc config.max_retries) 0 [] (omega arith) (omega arith) in
      let calls = (attempt_from config executor (suc config.max_retries) 0 []).calls in
      (
        subst
            (λ n.
              IsProper config (last_answer 0 calls) n
                (attempt_from config executor (suc config.max_retries) 0 []).outcome)
            (omega arith) a,
        omega arith,
        c,
      )

  abbrev pub Excludes : String → List String → Type 0
  Excludes w x = includes x w ≡ true

  includes-exclude :
      (x : Failure) (excluded : List String) (w : String)
      → includes excluded w ≡ true
      → includes (exclude x excluded) w ≡ true
  unfolding exclude
  includes-exclude x excluded w h = elim (Option-cases x.worker_id) [
    | inl e ↦ ground arith
    | inr (u, e) ↦ ground (arith, includes-add u w excluded)
  ]

  includes-exclude_self :
      (x : Failure) (excluded : List String) (w : String)
      → x.worker_id ≡ some w
      → (w == "") ≡ false
      → includes (exclude x excluded) w ≡ true
  unfolding exclude
  includes-exclude_self x excluded w n p = ground (arith, includes-add w w excluded, ==_refl w)

  attempt_from-keeps :
      (fuel attempts : ℕ) (excluded : List String) (w : String)
      → includes excluded w ≡ true
      → All (Excludes w) (attempt_from config executor fuel attempts excluded).calls
  unfolding attempt_from
  attempt_from-keeps zero attempts excluded w h = tt
  attempt_from-keeps (suc fuel) attempts excluded w h =
      elim (Attempt-cases (executor attempts excluded)) [
        | inl (t, e) ↦ ground arith
        | inr (x, e) ↦ ground (
          arith,
          includes-exclude x excluded w h,
          attempt_from-keeps fuel (attempts + 1) (exclude x excluded) w,
        )
      ]

  -- A worker that a failure names is among the excluded workers at every later call of the run.
  pub attempt_from-Excludes :
      (fuel attempts : ℕ) (excluded : List String) (x : Failure) (w : String)
      → executor attempts excluded ≡ failed x
      → x.worker_id ≡ some w
      → (w == "") ≡ false
      → All (Excludes w) (tail (attempt_from config executor (suc fuel) attempts excluded).calls)
  unfolding attempt_from
  attempt_from-Excludes fuel attempts excluded x w e n p = ground (
    arith,
    attempt_from-keeps fuel (attempts + 1) (exclude x excluded) w
        (includes-exclude_self x excluded w n p),
  )

  -- If the executor fails with retryable errors at its first `k` calls, with `k` no more than
  -- `maxRetries`, and succeeds at the next, the handler returns that result after `k + 1` calls.
  pub attempt_from-recovers :
      (k : ℕ) (t : T) (fuel attempts : ℕ) (excluded : List String)
      → k ≤ config.max_retries
      → attempts ≤ k
      → config.max_retries < fuel + attempts
      → ((n : ℕ) (y : List String)
          → n < k
          → (x : Failure) × (executor n y ≡ failed x) × (is_retryable config x ≡ true))
      → ((y : List String) → executor k y ≡ succeeded t)
      → ((attempt_from config executor fuel attempts excluded).outcome ≡ returned t)
        × (length (attempt_from config executor fuel attempts excluded).calls + attempts ≡ k + 1)
  unfolding attempt_from
  attempt_from-recovers k t zero attempts excluded l a f fails succeeds = absurd (omega arith)
  attempt_from-recovers k t (suc fuel) attempts excluded l a f fails succeeds =
      elim (Bool-cases (ltb attempts k)) [
        | inl b ↦
            let (x, e, r) = fails attempts excluded (ltb→lt attempts k b) in
            ground (
              arith,
              attempt_from-recovers k t fuel (attempts + 1) (exclude x excluded) l (omega tests)
                  (omega arith) fails succeeds,
            )
        | inr b ↦
            let same : attempts ≡ k = ground arith in
            let e : executor attempts excluded ≡ succeeded t =
              subst (λ n. executor n excluded ≡ succeeded t) (sym same) (succeeds excluded) in
            ground arith
      ]
