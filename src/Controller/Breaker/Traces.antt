-- ===== src/Controller/Breaker/Traces.antt =====
-- Runs of a worker's circuit breaker: how it trips, how long it blocks, how it recovers.
use mlx_serving.Prelude.{
  ℕ, ◌+◌, ◌≤◌, ◌<◌, ◌≡◌, inl, inr, true, false, none, some, List, [], ◌∷◌, map, length, leb,
  if◌then◌else◌, All, Bool-cases, arith,
}
use mlx_serving.Controller.Breaker.{
  closed, open_, half_open, Breaker, can_make_request, record_success, record_failure, Call, asks,
  succeeds, fails, resets, step, run,
}

abbrev pub all_at : Call → List ℕ → List (ℕ × Call)
all_at c ts = map (λ t. (t, c)) ts

open-fails : (b : Breaker) (ts : List ℕ) → b.state ≡ open_ → (run b (all_at fails ts)).state ≡ open_
unfolding run step
open-fails b [] o = o
open-fails b (t ∷ ts) o = open-fails (record_failure b t) ts (ground arith)

-- A closed breaker below its threshold that sees failures only is open after them if, and only
-- if, they bring the count to the threshold; until then it stays closed.
pub run-fails :
    (b : Breaker) (ts : List ℕ)
    → b.state ≡ closed
    → b.failures < b.config.failure_threshold
    → (run b (all_at fails ts)).state
      ≡ (if leb b.config.failure_threshold (b.failures + length ts) then open_ else closed)
unfolding run step
run-fails b [] c h = ground arith
run-fails b (t ∷ ts) c h = elim (Bool-cases (leb b.config.failure_threshold (b.failures + 1))) [
  | inl e ↦ ground (arith, open-fails (record_failure b t) ts)
  | inr e ↦ ground (arith, run-fails (record_failure b t) ts)
]

closed-succeeds :
    (b : Breaker) (ts : List ℕ) → b.state ≡ closed → ((run b (all_at succeeds ts)).state ≡ closed)
unfolding run step
closed-succeeds b [] o = o
closed-succeeds b (t ∷ ts) o = closed-succeeds (record_success b t) ts (ground arith)

-- A half-open breaker below its threshold that sees successes only is closed after them if, and
-- only if, they bring the count to the threshold; until then it stays half open.
pub run-succeeds :
    (b : Breaker) (ts : List ℕ)
    → b.state ≡ half_open
    → b.successes < b.config.success_threshold
    → (run b (all_at succeeds ts)).state
      ≡ (if leb b.config.success_threshold (b.successes + length ts) then closed else half_open)
unfolding run step
run-succeeds b [] c h = ground arith
run-succeeds b (t ∷ ts) c h = elim (Bool-cases (leb b.config.success_threshold (b.successes + 1))) [
  | inl e ↦ ground (arith, closed-succeeds (record_success b t) ts)
  | inr e ↦ ground (arith, run-succeeds (record_success b t) ts)
]

-- A call other than `reset`, made before the time `limit`.
abbrev pub IsBefore : ℕ → ℕ × Call → Type 0
IsBefore limit (now, resets) = ⊥
IsBefore limit (now, _) = now < limit

abbrev pub IsOpenSince : ℕ → Breaker → Type 0
IsOpenSince t b = (b.state ≡ open_) × (b.opened_at ≡ some t)

step-IsOpenSince :
    (b : Breaker) (t limit : ℕ) (e : ℕ × Call)
    → IsOpenSince t b
    → limit ≤ t + b.config.timeout_ms
    → IsBefore limit e
    → IsOpenSince t (step b e.0 e.1) × (limit ≤ t + (step b e.0 e.1).config.timeout_ms)
unfolding step
step-IsOpenSince b t limit (now, asks) o l h = ground arith
step-IsOpenSince b t limit (now, _) o l h = ground arith

run-blocks_until :
    (b : Breaker) (t limit : ℕ) (cs : List (ℕ × Call)) (now : ℕ)
    → IsOpenSince t b
    → limit ≤ t + b.config.timeout_ms
    → All (IsBefore limit) cs
    → now < limit
    → can_make_request (run b cs) now ≡ (run b cs, false)
unfolding run
run-blocks_until b t limit [] now o l h n = unfold can_make_request in ground arith
run-blocks_until b t limit (e ∷ cs) now o l h n =
    let (o', l') = step-IsOpenSince b t limit e o l h.0 in
    run-blocks_until (step b e.0 e.1) t limit cs now o' l' h.1 n

-- A breaker that opened at `t` lets no request through before `t + timeoutMs`, whatever requests,
-- successes, failures and reads of the state come before that time, unless it is reset.
pub run-blocks :
    (b : Breaker) (t : ℕ) (cs : List (ℕ × Call)) (now : ℕ)
    → IsOpenSince t b
    → All (IsBefore (t + b.config.timeout_ms)) cs
    → now < t + b.config.timeout_ms
    → can_make_request (run b cs) now ≡ (run b cs, false)
run-blocks b t cs now o h n = run-blocks_until b t _ cs now o (omega arith) h n

-- The last of the successes that a half-open breaker needs leaves nothing counted.
run-succeeds_counts :
    (b : Breaker) (ts : List ℕ)
    → b.state ≡ half_open
    → b.successes + length ts ≡ b.config.success_threshold
    → 0 < length ts
    → ((run b (all_at succeeds ts)).failures ≡ 0)
      × ((run b (all_at succeeds ts)).successes ≡ 0)
      × ((run b (all_at succeeds ts)).opened_at ≡ none)
unfolding run step
run-succeeds_counts b [] c n p = absurd (omega arith)
run-succeeds_counts b (t ∷ []) c n p = ground arith
run-succeeds_counts b (t ∷ u ∷ ts) c n p =
    ground (arith, run-succeeds_counts (record_success b t) (u ∷ ts))

-- A breaker that opened at `t` lets the first request at or after `t + timeoutMs` through as a
-- probe, and once `successThreshold` successes have followed it is closed, with no failure and no
-- success counted and no time of opening.
pub run-recovers :
    (b : Breaker) (t now : ℕ) (ts : List ℕ)
    → IsOpenSince t b
    → t + b.config.timeout_ms ≤ now
    → 0 < b.config.success_threshold
    → length ts ≡ b.config.success_threshold
    → ((can_make_request b now).1 ≡ true)
      × ((run b ((now, asks) ∷ all_at succeeds ts)).state ≡ closed)
      × ((run b ((now, asks) ∷ all_at succeeds ts)).failures ≡ 0)
      × ((run b ((now, asks) ∷ all_at succeeds ts)).successes ≡ 0)
      × ((run b ((now, asks) ∷ all_at succeeds ts)).opened_at ≡ none)
unfolding run step
run-recovers b t now ts o l p n =
    let b' = (can_make_request b now).0 in
    let probing : (b'.state ≡ half_open)
        × (b'.successes ≡ 0)
        × (b'.config.success_threshold ≡ b.config.success_threshold)
        × ((can_make_request b now).1 ≡ true) =
      ground arith in
    let counts = run-succeeds_counts b' ts probing.0 (omega (arith, probing)) (omega arith) in
    (probing.3, ground (arith, run-succeeds b' ts), counts.0, counts.1, counts.2)
