-- ===== src/Core/CircuitBreaker.antt =====
-- src/core/circuit-breaker.ts. `Date.now()` is the argument `now` of each method; the readings
-- within one method are taken as one. A test on a difference of times is written without the
-- subtraction: `t < now - window` as `t + window < now`. `execute` is two steps, `start` up to the
-- call of the operation and `on_success` or `on_failure` when its promise settles, since other
-- calls run in between. The recovery timer is the time `timer` at which the
-- pending timeout is due, and `fire` is
-- its callback. The callback `onStateChange` and the logger are left out, and with them the
-- events; a circuit's name stands in errors only.
pub mod Invariant
pub mod Window
pub mod Recovery
mod Tests
use mlx_serving.Prelude.{
  ℕ, ◌+◌, ◌-◌, Bool, true, false, ◌&&◌, Option, none, some, List, [], ◌∷◌, ◌++◌, if◌then◌else◌, leb,
  ltb, eqb, length,
}

pub data CircuitState : Type 0 where
  closed open_ half_open : CircuitState

pub record CircuitBreakerConfig : Type 0 where
  pub failure_threshold : ℕ
  pub recovery_timeout_ms : ℕ
  pub half_open_max_calls : ℕ
  pub half_open_success_threshold : ℕ
  pub failure_window_ms : ℕ

pub record CircuitBreaker : Type 0 where
  pub config : CircuitBreakerConfig
  pub state : CircuitState
  pub last_state_change : ℕ
  pub opened_at : Option ℕ
  pub failure_count : ℕ
  pub success_count : ℕ
  pub rejected_count : ℕ
  pub half_open_attempts : ℕ
  pub half_open_successes : ℕ
  pub recent_failures : List ℕ
  pub timer : Option ℕ

-- The constructor, with the initial values of the fields.
unfoldable pub new : CircuitBreakerConfig → ℕ → CircuitBreaker
new config now = record {
  config = config;
  state = closed;
  last_state_change = now;
  opened_at = none;
  failure_count = 0;
  success_count = 0;
  rejected_count = 0;
  half_open_attempts = 0;
  half_open_successes = 0;
  recent_failures = [];
  timer = none;
}

abbrev pub same_state : CircuitState → CircuitState → Bool
same_state closed closed = true
same_state open_ open_ = true
same_state half_open half_open = true
same_state _ _ = false

clear_recent_failures : CircuitBreaker → CircuitBreaker
clear_recent_failures b = record b { recent_failures = [] }

cancel_recovery : CircuitBreaker → CircuitBreaker
cancel_recovery b = record b { timer = none }

schedule_recovery : CircuitBreaker → ℕ → CircuitBreaker
unfolding cancel_recovery
schedule_recovery b now = record (cancel_recovery b) {
  timer = some (now + b.config.recovery_timeout_ms);
}

-- The part of `transitionTo` that depends on the new state.
set_up : CircuitState → CircuitBreaker → ℕ → CircuitBreaker
unfolding schedule_recovery clear_recent_failures cancel_recovery
set_up open_ b now = schedule_recovery (record b { opened_at = some now }) now
set_up closed b now = cancel_recovery (record (clear_recent_failures b) {
  half_open_attempts = 0;
  half_open_successes = 0;
  opened_at = none;
})
set_up half_open b now = record b { half_open_attempts = 0; half_open_successes = 0 }

unfoldable pub transition_to : CircuitState → CircuitBreaker → ℕ → CircuitBreaker
unfolding set_up
transition_to new_state b now =
    if same_state b.state new_state
    then b
    else set_up new_state (record b { state = new_state; last_state_change = now }) now

-- The loop that shifts off the failures before the window.
unfoldable pub drop_before : ℕ → ℕ → List ℕ → List ℕ
drop_before now window [] = []
drop_before now window (t ∷ ts) = elim (ltb (t + window) now) [
  | true ↦ drop_before now window ts
  | false ↦ t ∷ ts
]

unfoldable pub cleanup_recent_failures : CircuitBreaker → ℕ → CircuitBreaker
unfolding drop_before
cleanup_recent_failures b now = record b {
  recent_failures = drop_before now b.config.failure_window_ms b.recent_failures;
}

-- `this.openedAt` is false to JavaScript's `&&` if it is absent or 0.
unfoldable pub get_retry_after_ms : CircuitBreaker → ℕ → ℕ
get_retry_after_ms b now = elim b.state [
  | open_ ↦ elim b.opened_at [
    | none ↦ b.config.recovery_timeout_ms
    | some t ↦
        if eqb t 0 then b.config.recovery_timeout_ms else b.config.recovery_timeout_ms + t - now
  ]
  | _ ↦ b.config.recovery_timeout_ms
]

-- What `execute` does before it calls the operation.
pub data Started : Type 0 where
  runs : Started
  -- `CircuitBreakerOpenError`, with its state and `retryAfterMs`.
  rejected : CircuitState → ℕ → Started

reject : CircuitBreaker → ℕ → CircuitBreaker × Started
unfolding get_retry_after_ms
reject b now =
    let b' = record b { rejected_count = b.rejected_count + 1 } in
    (b', rejected b.state (get_retry_after_ms b' now))

unfoldable pub start : CircuitBreaker → ℕ → CircuitBreaker × Started
unfolding reject
start b now = elim b.state [
  | open_ ↦ reject b now
  | half_open ↦
      if leb b.config.half_open_max_calls b.half_open_attempts
      then reject b now
      else (record b { half_open_attempts = b.half_open_attempts + 1 }, runs)
  | closed ↦ (b, runs)
]

unfoldable pub on_success : CircuitBreaker → ℕ → CircuitBreaker
unfolding transition_to clear_recent_failures
on_success b now =
    let b' = record b { success_count = b.success_count + 1 } in
    elim b.state [
      | half_open ↦
          let b'' = record b' { half_open_successes = b'.half_open_successes + 1 } in
          if leb b.config.half_open_success_threshold b''.half_open_successes
          then transition_to closed b'' now
          else b''
      | closed ↦ clear_recent_failures b'
      | open_ ↦ b'
    ]

unfoldable pub on_failure : CircuitBreaker → ℕ → CircuitBreaker
unfolding transition_to
on_failure b now =
    let b' =
      cleanup_recent_failures
        (record b {
          failure_count = b.failure_count + 1;
          recent_failures = b.recent_failures ++ now ∷ [];
        })
        now in
    elim b.state [
      | half_open ↦ transition_to open_ b' now
      | closed ↦
          if leb b.config.failure_threshold (length b'.recent_failures)
          then transition_to open_ b' now
          else b'
      | open_ ↦ b'
    ]

-- The callback of the recovery timer, whose timeout is then no longer pending.
unfoldable pub fire : CircuitBreaker → ℕ → CircuitBreaker
unfolding transition_to
fire b now = transition_to half_open (record b { timer = none }) now

unfoldable pub reset : CircuitBreaker → ℕ → CircuitBreaker
unfolding transition_to cancel_recovery clear_recent_failures
reset b now =
    let b' = transition_to closed (cancel_recovery b) now in
    clear_recent_failures (record b' {
      failure_count = 0;
      success_count = 0;
      rejected_count = 0;
      half_open_attempts = 0;
      half_open_successes = 0;
      opened_at = none;
    })

unfoldable pub force_open : CircuitBreaker → ℕ → CircuitBreaker
unfolding transition_to
force_open b now = transition_to open_ b now

unfoldable pub force_close : CircuitBreaker → ℕ → CircuitBreaker
unfolding transition_to
force_close b now = transition_to closed b now

unfoldable pub cleanup : CircuitBreaker → CircuitBreaker
unfolding cancel_recovery clear_recent_failures
cleanup b = clear_recent_failures (cancel_recovery b)

-- What happens to a breaker, each at its time. The timer fires only if it is pending and due.
pub data Event : Type 0 where
  starts succeeds fails fires resets forces_open forces_close cleans_up : Event

unfoldable pub step : CircuitBreaker → ℕ → Event → CircuitBreaker
unfolding start on_success on_failure fire reset force_open force_close cleanup
step b now starts = (start b now).0
step b now succeeds = on_success b now
step b now fails = on_failure b now
step b now fires = elim b.timer [ none ↦ b | some due ↦ if leb due now then fire b now else b ]
step b now resets = reset b now
step b now forces_open = force_open b now
step b now forces_close = force_close b now
step b now cleans_up = cleanup b

unfoldable pub run : CircuitBreaker → List (ℕ × Event) → CircuitBreaker
run b [] = b
run b ((now, e) ∷ es) = run (step b now e) es
