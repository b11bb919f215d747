-- ===== src/Scheduling/Priority/Tests.antt =====
-- A scheduler with requests of several priorities.
use mlx_serving.Prelude.{
  ℕ, ◌≤◌, ◌≡◌, refl, Bool, true, false, none, some, [], ◌∷◌, String, string_eq, nat_eq, All, arith,
  map,
}
use mlx_serving.JsMap.{get, put}
use mlx_serving.Scheduling.Priority.{
  SchedulableRequest, PrioritySchedulerConfig, PriorityScheduler, new, count_of, tenant_of,
  deadline_of, is_urgent, urgent_in, find_urgent_request, least, default_estimate,
  estimate_duration, pick, select_low_priority_request, select_next_request, choose, remove_id,
  remove_from_queue, make_scheduling_decision, serve, execute_request, schedule_next, count_queued,
  enqueue, schedule,
}
use mlx_serving.Scheduling.Priority.Aging.{
  is_aged, promote, age_queue, age_priority, age_all, apply_aging,
}
use mlx_serving.Scheduling.Priority.Arrival.{IsIdle}
use mlx_serving.Scheduling.Priority.Order.{schedules, ages, run, arrivals, run-arrivals}
use mlx_serving.Scheduling.Priority.Shortest.{Picked, select_next_request-shortest}

abbrev small_config : PrioritySchedulerConfig
small_config = record {
  max_latency_ms = λ p. 100000;
  shortest_job_first = true;
  urgency_threshold_ms = 100;
  aging_interval_ms = 50;
  max_queue_size = 10;
  max_concurrent = 1;
}

abbrev request : String → ℕ → ℕ → SchedulableRequest ℕ
request id priority tokens = record {
  metadata = record {
    id = id;
    priority = priority;
    queued_at = 10;
    estimated_tokens = some tokens;
    deadline = none;
    original_priority = priority;
    aging_bumps = 0;
    tenant_id = some "t";
  };
  payload = 7;
}

abbrev never : ℕ → Bool
never n = false

program : Unit {0}
unfolding new count_of tenant_of deadline_of is_urgent urgent_in find_urgent_request least
    default_estimate estimate_duration pick select_low_priority_request select_next_request choose
    remove_id remove_from_queue make_scheduling_decision serve execute_request schedule_next
    count_queued enqueue schedule is_aged promote age_queue age_priority age_all apply_aging run
    arrivals get put
program = tt

-- The low request is resolved before the critical one that comes after it.
order :
    map
      (λ r. r.metadata.id)
      (run never
        (new small_config)
        (schedules 20 (request "low" 3 5) ∷ schedules 21 (request "top" 0 5) ∷ [])).resolved
    ≡ "low" ∷ "top" ∷ []
unfolding program
order = refl

run-arrivals_example :
    IsIdle (
      run never
        (new small_config)
        (schedules 20 (request "low" 3 5) ∷ ages 21 ∷ schedules 22 (request "top" 0 5) ∷ []))
    × ((run never (new small_config) (
          schedules 20 (request "low" 3 5)
          ∷ ages 21
          ∷ schedules 22 (request "top" 0 5)
          ∷ [])).resolved
        ≡ arrivals
            (schedules 20 (request "low" 3 5) ∷ ages 21 ∷ schedules 22 (request "top" 0 5) ∷ []))
run-arrivals_example =
    run-arrivals never small_config
      (schedules 20 (request "low" 3 5) ∷ ages 21 ∷ schedules 22 (request "top" 0 5) ∷ [])
      (omega arith) (omega arith)

-- A scheduler in which requests wait.
abbrev waiting : PriorityScheduler ℕ
waiting = record (new small_config) {
  queues =
      (0, [])
      ∷ (1, [])
      ∷ (2, request "a" 2 9 ∷ request "b" 2 4 ∷ request "c" 2 6 ∷ [])
      ∷ (3, request "d" 3 1 ∷ [])
      ∷ (4, [])
      ∷ [];
}

-- Aging promotes "a", skips "b", and promotes "c".
skipped :
    map
      (λ r. r.metadata.id)
      (age_queue 50 100 2 false (request "a" 2 9 ∷ request "b" 2 4 ∷ request "c" 2 6 ∷ [])).0
    ≡ "b" ∷ []
unfolding program
skipped = refl

select_next_request-shortest_example :
    (k : Picked (least estimate_duration) (0 ∷ 1 ∷ 2 ∷ 3 ∷ 4 ∷ []) waiting.queues (request "b" 2 4))
    × All (λ x. estimate_duration (request "b" 2 4) ≤ estimate_duration x) (k.first ∷ k.others)
select_next_request-shortest_example =
    select_next_request-shortest waiting (request "b" 2 4) (unfold program in refl)
      (unfold program in refl)
