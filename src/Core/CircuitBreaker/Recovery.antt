-- ===== src/Core/CircuitBreaker/Recovery.antt =====
-- How a circuit breaker blocks while it is open, and when it closes again.
use mlx_serving.Prelude.{
  ℕ, suc, ◌+◌, ◌-◌, ◌≤◌, ◌<◌, ◌≡◌, refl, ◌∙◌, none, some, List, [], ◌∷◌, length, min, arith,
  Bool-cases, inl, inr, zero, ◌⊎◌, leb, if◌then◌else◌, All,
}
use native.Mathlib.Nat.{add_comm}
use mlx_serving.Core.CircuitBreaker.{
  closed, open_, half_open, CircuitBreaker, start, Started, runs, rejected, on_success,
  cleanup_recent_failures, fire, Event, resets, forces_close, step, run,
}

-- `execute` of an operation that succeeds before anything else happens.
unfoldable pub execute_ok : CircuitBreaker → ℕ → CircuitBreaker × Started
execute_ok b now =
    let (b', s) = start b now in
    elim s [ runs ↦ (on_success b' now, runs) | rejected c t ↦ (b', rejected c t) ]

unfoldable pub execute_all : CircuitBreaker → List ℕ → CircuitBreaker
execute_all b [] = b
execute_all b (now ∷ times) = execute_all (execute_ok b now).0 times

execute_all-closed :
    (b : CircuitBreaker) (ts : List ℕ) → b.state ≡ closed → (execute_all b ts).state ≡ closed
unfolding execute_all execute_ok start on_success
execute_all-closed b [] c = c
execute_all-closed b (t ∷ ts) c = execute_all-closed (execute_ok b t).0 ts (ground arith)

execute_all-full :
    (b : CircuitBreaker) (ts : List ℕ)
    → b.state ≡ half_open
    → b.config.half_open_max_calls ≤ b.half_open_attempts
    → (execute_all b ts).state ≡ half_open
unfolding execute_all execute_ok start
execute_all-full b [] h f = h
execute_all-full b (t ∷ ts) h f =
    execute_all-full (execute_ok b t).0 ts (ground arith) (ground arith)

-- `m` calls are left of the half-open ones, and `n` successes are missing.
execute_all-half_open :
    (b : CircuitBreaker) (m n : ℕ) (ts : List ℕ)
    → b.state ≡ half_open
    → b.half_open_attempts + m ≡ b.config.half_open_max_calls
    → b.half_open_successes + n ≡ b.config.half_open_success_threshold
    → 0 < n
    → (execute_all b ts).state ≡ (if leb n (min (length ts) m) then closed else half_open)
unfolding execute_all execute_ok start on_success
execute_all-half_open b m n [] h a s p = ground arith
execute_all-half_open b zero n (t ∷ ts) h a s p = ground (arith, execute_all-full b (t ∷ ts) h)
execute_all-half_open b (suc m) n (t ∷ ts) h a s p =
    elim (Bool-cases (leb b.config.half_open_success_threshold (b.half_open_successes + 1))) [
      | inl e ↦ ground (arith, execute_all-closed (execute_ok b t).0 ts)
      | inr e ↦ ground (arith, execute_all-half_open (execute_ok b t).0 m (n - 1) ts)
    ]

-- A breaker that has just become half open and whose calls then all succeed, one after the other,
-- is closed after them if, and only if, there were at least `halfOpenSuccessThreshold` and the
-- breaker lets as many through, `halfOpenSuccessThreshold <= halfOpenMaxCalls`; else it stays half
-- open, after however many calls.
pub execute_all-recovers :
    (b : CircuitBreaker) (ts : List ℕ)
    → b.state ≡ half_open
    → b.half_open_attempts ≡ 0
    → b.half_open_successes ≡ 0
    → 0 < b.config.half_open_success_threshold
    → (execute_all b ts).state ≡ (
        if leb b.config.half_open_success_threshold (min (length ts) b.config.half_open_max_calls)
        then closed
        else half_open)
execute_all-recovers b ts h a s p =
    execute_all-half_open b b.config.half_open_max_calls b.config.half_open_success_threshold ts h
      (omega arith) (omega arith) p

-- The events that leave an open breaker open: all but a reset and a forced close.
abbrev pub LeavesOpen : ℕ → ℕ × Event → Type 0
LeavesOpen due (now, resets) = ⊥
LeavesOpen due (now, forces_close) = ⊥
LeavesOpen due (now, e) = now < due

abbrev pub IsOpenSince : ℕ → CircuitBreaker → Type 0
IsOpenSince t b =
    (b.state ≡ open_)
    × (b.opened_at ≡ some t)
    × ((b.timer ≡ none) ⊎ (b.timer ≡ some (t + b.config.recovery_timeout_ms)))

step-IsOpenSince :
    (b : CircuitBreaker) (t : ℕ) (now : ℕ) (e : Event) (due : ℕ)
    → IsOpenSince t b
    → due ≤ t + b.config.recovery_timeout_ms
    → LeavesOpen due (now, e)
    → IsOpenSince t (step b now e) × ((step b now e).config ≡ b.config)
unfolding step cleanup_recent_failures
step-IsOpenSince b t now resets due o d l = absurd l
step-IsOpenSince b t now forces_close due o d l = absurd l
step-IsOpenSince b t now _ due o d l = ground arith

run-IsOpenSince :
    (b : CircuitBreaker) (t due : ℕ) (es : List (ℕ × Event))
    → IsOpenSince t b
    → due ≤ t + b.config.recovery_timeout_ms
    → All (LeavesOpen due) es
    → IsOpenSince t (run b es) × ((run b es).config ≡ b.config)
unfolding run
run-IsOpenSince b t due [] o d l = (o, refl)
run-IsOpenSince b t due ((now, e) ∷ es) o d l =
    let (o', same) = step-IsOpenSince b t now e due o d l.0 in
    let (o'', same') = run-IsOpenSince (step b now e) t due es o' (ground arith) l.1 in
    (o'', same' ∙ same)

-- A breaker that opened at a time `t` other than 0 rejects every call before
-- `t + recoveryTimeoutMs` and tells the caller to wait until then, whatever happens before that
-- time, unless it is reset or closed by force.
pub start-blocks :
    (b : CircuitBreaker) (t : ℕ) (es : List (ℕ × Event)) (now : ℕ)
    → 0 < t
    → IsOpenSince t b
    → All (LeavesOpen (t + b.config.recovery_timeout_ms)) es
    → now < t + b.config.recovery_timeout_ms
    → (start (run b es) now).1 ≡ rejected open_ (t + b.config.recovery_timeout_ms - now)
unfolding start
start-blocks b t es now p o l n =
    let (o', same) = run-IsOpenSince b t _ es o (omega arith) l in
    ground (arith, add_comm b.config.recovery_timeout_ms t)

-- When its timer fires, an open breaker is half open with no call let through and no success
-- counted.
pub fire-half_open :
    (b : CircuitBreaker) (now : ℕ)
    → b.state ≡ open_
    → ((fire b now).state ≡ half_open)
      × ((fire b now).half_open_attempts ≡ 0)
      × ((fire b now).half_open_successes ≡ 0)
      × ((fire b now).config ≡ b.config)
unfolding fire
fire-half_open b now o = ground arith
