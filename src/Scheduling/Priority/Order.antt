-- ===== src/Scheduling/Priority/Order.antt =====
-- The runs of src/scheduling/PriorityScheduler.ts, and the order in which they resolve requests.
use mlx_serving.Prelude.{
  ℕ, ◌≤◌, ◌≡◌, refl, sym, ap, ◌∙◌, subst, Bool, true, false, List, [], ◌∷◌, ◌++◌, string_eq, nat_eq,
  if◌then◌else◌, if_true, if_false, leb, arith, Option-cases, inl, inr,
}
use mathlib.Core.List.{append_assoc, append-nil}
use mlx_serving.JsMap.{get}
use mlx_serving.Scheduling.Priority.{
  SchedulableRequest, PrioritySchedulerConfig, PriorityScheduler, schedule, new,
}
use mlx_serving.Scheduling.Priority.Select.{placed_from_entries, IsPlaced}
use mlx_serving.Scheduling.Priority.Aging.{apply_aging, is_some-get}
use mlx_serving.Prelude.{is_some}
use mlx_serving.JsMap.{includes}
use mlx_serving.Scheduling.Priority.Arrival.{
  IsIdle, schedule-IsIdle, schedule_invalid, apply_aging-IsIdle,
}

-- A call of `schedule`, or the timer of aging.
pub data Event (T : Type 0) : Type 0 where
  schedules : ℕ → SchedulableRequest T → Event T
  ages : ℕ → Event T

module _ {T : Type 0} where
  unfoldable pub run : (ℕ → Bool) → PriorityScheduler T → List (Event T) → PriorityScheduler T
  run fair s [] = s
  run fair s (schedules now r ∷ events) = run fair (schedule fair now s r).0 events
  run fair s (ages now ∷ events) = run fair (apply_aging s now) events

  -- The requests of one of the five priorities, in the order in which they arrive.
  unfoldable pub arrivals : List (Event T) → List (SchedulableRequest T)
  arrivals [] = []
  arrivals (schedules now r ∷ events) =
      let rest = arrivals events in if leb r.metadata.priority 4 then r ∷ rest else rest
  arrivals (ages now ∷ events) = arrivals events

  queue_of :
      (s : PriorityScheduler T) (p : ℕ) → IsPlaced s.queues → is_some (get p s.queues) ≡ leb p 4
  queue_of s p i = is_some-get p s.queues ∙ ap (λ ps. includes ps p) i.five ∙ ground arith

  resolved_aged :
      (s : PriorityScheduler T) (now : ℕ) (l : List (SchedulableRequest T))
      → (apply_aging s now).resolved ++ l ≡ s.resolved ++ l
  unfolding apply_aging
  resolved_aged s now l = refl

  new-IsPlaced : IsPlaced {T = T} ((0, []) ∷ (1, []) ∷ (2, []) ∷ (3, []) ∷ (4, []) ∷ [])
  unfolding get
  new-IsPlaced = record {
    five = refl;
    distinct = (refl, (refl, (refl, (refl, (refl, tt)))));
    placed = λ p queue g.
        placed_from_entries p queue ((0, []) ∷ (1, []) ∷ (2, []) ∷ (3, []) ∷ (4, []) ∷ [])
          (tt, (tt, (tt, (tt, (tt, tt))))) g;
  }

  run_from-arrivals :
      (fair : ℕ → Bool) (s : PriorityScheduler T) (events : List (Event T))
      → IsIdle s
      → IsIdle (run fair s events) × ((run fair s events).resolved ≡ s.resolved ++ arrivals events)
  unfolding run arrivals
  run_from-arrivals fair s [] i = (i, sym (append-nil s.resolved))
  run_from-arrivals fair s (ages now ∷ events) i =
      let (idle, same) =
        run_from-arrivals fair (apply_aging s now) events (apply_aging-IsIdle s now i) in
      (idle, same ∙ resolved_aged s now (arrivals events))
  run_from-arrivals fair s (schedules now r ∷ events) i =
      elim (Option-cases (get r.metadata.priority s.queues)) [
        | inl e ↦
            let bad : leb r.metadata.priority 4 ≡ false =
              sym (queue_of s r.metadata.priority i.placed) ∙ ap is_some e in
            let same = schedule_invalid fair now s r e in
            let (idle, rest) =
              run_from-arrivals fair (schedule fair now s r).0 events (subst IsIdle (sym same) i) in
            (
              idle,
              rest
                  ∙ ap (λ (x : PriorityScheduler T). x.resolved ++ arrivals events) same
                  ∙ ap (λ l. s.resolved ++ l)
                      (sym (if_false (r ∷ arrivals events) (arrivals events) bad)),
            )
        | inr (queue, e) ↦
            let good : leb r.metadata.priority 4 ≡ true =
              sym (queue_of s r.metadata.priority i.placed) ∙ ap is_some e in
            let (answer, resolved, next) = schedule-IsIdle fair now s r queue i e in
            let (idle, rest) = run_from-arrivals fair (schedule fair now s r).0 events next in
            (
              idle,
              rest
                  ∙ ap (λ l. l ++ arrivals events) resolved
                  ∙ append_assoc s.resolved (r ∷ []) (arrivals events)
                  ∙ ap (λ l. s.resolved ++ l)
                      (sym (if_true (r ∷ arrivals events) (arrivals events) good)),
            )
      ]

  -- From a new scheduler with room for one request, whatever is scheduled and however the timer of
  -- aging runs: after each call no request waits or executes, and the requests of the five
  -- priorities were resolved in the order of their arrival, so that priorities, deadlines, aging
  -- and the random tests of fairness decide nothing.
  pub run-arrivals :
      (fair : ℕ → Bool) (config : PrioritySchedulerConfig) (events : List (Event T))
      → 1 ≤ config.max_concurrent
      → 1 ≤ config.max_queue_size
      → IsIdle (run fair (new config) events)
        × ((run fair (new config) events).resolved ≡ arrivals events)
  unfolding new
  run-arrivals fair config events c q = run_from-arrivals fair (new config) events (record {
    placed = new-IsPlaced;
    empty = refl;
    none_executing = refl;
    has_room = c;
    has_queue = q;
  })
