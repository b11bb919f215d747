-- ===== src/Controller/Breaker.antt =====
-- src/distributed/controller/circuit-breaker.ts. `Date.now()` is an argument `now` of each method
-- that reads the clock, and a comparison of differences of times, `now - openedAt >= timeoutMs`,
-- is written without the subtraction, `openedAt + timeoutMs <= now`. Logging is left out.
pub mod Invariant
pub mod Traces
pub mod Manager
mod Tests
use mlx_serving.Prelude.{
  ℕ, ◌+◌, Bool, true, false, Option, none, some, List, [], ◌∷◌, String, if◌then◌else◌, leb, ltb,
}

pub data CircuitState : Type 0 where
  closed open_ half_open : CircuitState

pub record Config : Type 0 where
  pub failure_threshold : ℕ
  pub success_threshold : ℕ
  pub timeout_ms : ℕ

pub record Breaker : Type 0 where
  pub worker_id : String
  pub config : Config
  pub state : CircuitState
  pub failures : ℕ
  pub successes : ℕ
  pub last_failure_time : Option ℕ
  pub last_success_time : Option ℕ
  pub opened_at : Option ℕ

-- The constructor, with the initial values of the fields.
unfoldable pub new : String → Config → Breaker
new worker_id config = record {
  worker_id = worker_id;
  config = config;
  state = closed;
  failures = 0;
  successes = 0;
  last_failure_time = none;
  last_success_time = none;
  opened_at = none;
}

-- `shouldAttemptReset`, whose first test is made by its callers, too.
should_attempt_reset : Breaker → ℕ → Bool
should_attempt_reset b now = elim b.state [
  | open_ ↦ elim b.opened_at [ none ↦ false | some t ↦ leb (t + b.config.timeout_ms) now ]
  | _ ↦ false
]

transition_to_closed : Breaker → Breaker
transition_to_closed b = record b { state = closed; failures = 0; successes = 0; opened_at = none }

transition_to_open : Breaker → ℕ → Breaker
transition_to_open b now = record b { state = open_; opened_at = some now; successes = 0 }

transition_to_half_open : Breaker → Breaker
transition_to_half_open b = record b { state = half_open; successes = 0; failures = 0 }

unfoldable pub can_make_request : Breaker → ℕ → Breaker × Bool
unfolding should_attempt_reset transition_to_half_open
can_make_request b now = elim b.state [
  | closed ↦ (b, true)
  | open_ ↦ if should_attempt_reset b now then (transition_to_half_open b, true) else (b, false)
  | half_open ↦ (b, true)
]

unfoldable pub record_success : Breaker → ℕ → Breaker
unfolding transition_to_closed
record_success b now = elim b.state [
  | half_open ↦
      let b' = record b { last_success_time = some now; successes = b.successes + 1 } in
      if leb b.config.success_threshold b'.successes then transition_to_closed b' else b'
  | closed ↦
      let b' = record b { last_success_time = some now } in
      if ltb 0 b.failures then record b' { failures = 0 } else b'
  | open_ ↦ record b { last_success_time = some now }
]

unfoldable pub record_failure : Breaker → ℕ → Breaker
unfolding transition_to_open
record_failure b now = elim b.state [
  | closed ↦
      let b' = record b { last_failure_time = some now; failures = b.failures + 1 } in
      if leb b.config.failure_threshold b'.failures then transition_to_open b' now else b'
  | half_open ↦ transition_to_open (record b { last_failure_time = some now }) now
  | open_ ↦ record b { last_failure_time = some now }
]

-- `getState` makes the transition that is due before it answers.
unfoldable pub get_state : Breaker → ℕ → Breaker × CircuitState
unfolding should_attempt_reset transition_to_half_open
get_state b now =
    let b' = if should_attempt_reset b now then transition_to_half_open b else b in (b', b'.state)

unfoldable pub reset : Breaker → Breaker
reset b = record b { state = closed; failures = 0; successes = 0; opened_at = none }

-- The calls that a client makes, each at its time.
pub data Call : Type 0 where
  asks succeeds fails reads resets : Call

unfoldable pub step : Breaker → ℕ → Call → Breaker
unfolding can_make_request record_success record_failure get_state reset
step b now asks = (can_make_request b now).0
step b now succeeds = record_success b now
step b now fails = record_failure b now
step b now reads = (get_state b now).0
step b now resets = reset b

unfoldable pub run : Breaker → List (ℕ × Call) → Breaker
run b [] = b
run b ((now, c) ∷ cs) = run (step b now c) cs
