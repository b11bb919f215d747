-- ===== src/Core/CircuitBreaker/Window.antt =====
-- The rolling window: what the shifting loop keeps, and when a closed breaker trips.
use mlx_serving.Prelude.{
  ℕ, ◌+◌, ◌≤◌, ◌≡◌, refl, sym, ap, not, List, [], ◌∷◌, ◌++◌, length, filter_b, All, All-append,
  arith, Bool-cases, inl, inr, leb, ltb, if◌then◌else◌,
}
use mlx_serving.Core.CircuitBreaker.{
  closed, open_, CircuitBreaker, drop_before, cleanup_recent_failures, on_failure,
}

-- Times in the order in which they were recorded.
abbrev pub IsOrdered : List ℕ → Type 0
IsOrdered [] = Unit
IsOrdered (t ∷ ts) = All (λ u. t ≤ u) ts × IsOrdered ts

-- The failures that are no older than the window at `now`.
abbrev pub within : ℕ → ℕ → List ℕ → List ℕ
within now window ts = filter_b (λ t. not (ltb (t + window) now)) ts

within-All :
    (now window u : ℕ) (ts : List ℕ)
    → now ≤ u + window
    → All (λ t. u ≤ t) ts
    → within now window ts ≡ ts
within-All now window u [] h a = refl
within-All now window u (t ∷ ts) h a = ground (arith, within-All now window u ts h a.1)

-- On failures in the order of time the loop, which stops at the first failure inside the window,
-- keeps all that are inside it and no other.
drop_before-within :
    (now window : ℕ) (ts : List ℕ) → IsOrdered ts → drop_before now window ts ≡ within now window ts
unfolding drop_before
drop_before-within now window [] o = refl
drop_before-within now window (t ∷ ts) o = elim (Bool-cases (ltb (t + window) now)) [
  | inl e ↦ rw (e, drop_before) (drop_before-within now window ts o.1)
  | inr e ↦
      rw (e, drop_before) (ap (λ l. t ∷ l) (sym (within-All now window t ts (ground arith) o.0)))
]

IsOrdered-append :
    (ts : List ℕ) (now : ℕ) → IsOrdered ts → All (λ t. t ≤ now) ts → IsOrdered (ts ++ now ∷ [])
IsOrdered-append [] now o a = (tt, tt)
IsOrdered-append (t ∷ ts) now o a =
    (All-append (λ u. t ≤ u) ts (now ∷ []) o.0 (a.0, tt), IsOrdered-append ts now o.1 a.1)

-- A closed breaker whose failures were recorded in the order of time keeps, at a failure, those
-- of the window and no other, and opens if, and only if, these, the new one with them, reach the
-- threshold.
pub on_failure-trips :
    (b : CircuitBreaker) (now : ℕ)
    → b.state ≡ closed
    → IsOrdered b.recent_failures
    → All (λ t. t ≤ now) b.recent_failures
    → let recent = within now b.config.failure_window_ms (b.recent_failures ++ now ∷ []) in
      ((on_failure b now).recent_failures ≡ recent)
      × ((on_failure b now).state
          ≡ (if leb b.config.failure_threshold (length recent) then open_ else closed))
unfolding on_failure cleanup_recent_failures
on_failure-trips b now c o a =
    let kept =
      drop_before-within now b.config.failure_window_ms (b.recent_failures ++ now ∷ [])
        (IsOrdered-append b.recent_failures now o a) in
    ground (arith, kept)
