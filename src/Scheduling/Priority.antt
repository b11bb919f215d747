-- ===== src/Scheduling/Priority.antt =====
-- The scheduler of src/scheduling/PriorityScheduler.ts, for payloads of any type `T`. `resolved` lists
-- the requests in the order in which they were resolved. The weights of fairness are an argument:
-- `fair n` is the outcome of the random test in the n-th decision. The maximal latency of a
-- priority, of the SLA tiers, is a function of the configuration. `executeRequest` awaits nothing,
-- so it runs to its end, `scheduleNext` in its `finally` included, before it returns. Metrics are
-- left out, as is the preemption, whose method is never called.
pub mod Select
pub mod Drain
pub mod Aging
pub mod Arrival
pub mod Order
pub mod Shortest
mod Tests
use mlx_serving.Prelude.{
  ℕ, zero, suc, ◌+◌, ◌-◌, ◌*◌, Bool, true, false, ◌||◌, Option, none, some, List, [], ◌∷◌, ◌++◌,
  String, ◌==◌, string_eq, nat_eq, filter_b, not, if◌then◌else◌, leb, ltb, length,
}
use mlx_serving.JsMap.{JsMap, get, put, total}

pub record RequestMetadata : Type 0 where
  pub id : String
  pub priority : ℕ
  pub queued_at : ℕ
  pub estimated_tokens : Option ℕ
  pub deadline : Option ℕ
  pub original_priority : ℕ
  pub aging_bumps : ℕ
  pub tenant_id : Option String

pub record SchedulableRequest (T : Type 0) : Type 0 where
  pub metadata : RequestMetadata
  pub payload : T

pub record PrioritySchedulerConfig : Type 0 where
  pub max_latency_ms : ℕ → ℕ
  pub shortest_job_first : Bool
  pub urgency_threshold_ms : ℕ
  pub aging_interval_ms : ℕ
  pub max_queue_size : ℕ
  pub max_concurrent : ℕ

pub record PriorityScheduler (T : Type 0) : Type 0 where
  pub config : PrioritySchedulerConfig
  pub queues : JsMap ℕ (List (SchedulableRequest T))
  pub served_counts : JsMap String ℕ
  pub last_served : JsMap String ℕ
  pub tenant_queue_depth : JsMap String ℕ
  pub executing : List String
  pub scheduling_decisions : ℕ
  pub resolved : List (SchedulableRequest T)

pub data Scheduled : Type 0 where
  accepted queue_full invalid_priority : Scheduled

-- `map.get(tenant) || 0`.
unfoldable pub count_of : String → JsMap String ℕ → ℕ
count_of tenant m = elim (get tenant m) [ none ↦ 0 | some n ↦ n ]

-- A tenant counts only if its name is not empty.
unfoldable pub tenant_of : RequestMetadata → Option String
tenant_of m = elim m.tenant_id [ none ↦ none | some t ↦ if t == "" then none else some t ]

unfoldable pub default_estimate : ℕ → ℕ
default_estimate p =
    if p == 0
    then 100
    else if p == 1
    then 500
    else if p == 2
    then 2000
    else if p == 3
    then 10000
    else 30000

module _ {T : Type 0} where
  unfoldable pub new : PrioritySchedulerConfig → PriorityScheduler T
  new config = record {
    config = config;
    queues = (0, []) ∷ (1, []) ∷ (2, []) ∷ (3, []) ∷ (4, []) ∷ [];
    served_counts = [];
    last_served = [];
    tenant_queue_depth = [];
    executing = [];
    scheduling_decisions = 0;
    resolved = [];
  }

  abbrev pub get_total_queue_size : PriorityScheduler T → ℕ
  get_total_queue_size s = total (λ q. length q) s.queues

  -- A deadline of 0 counts as none.
  unfoldable pub deadline_of : PrioritySchedulerConfig → ℕ → SchedulableRequest T → ℕ
  deadline_of config priority r =
      let default = r.metadata.queued_at + config.max_latency_ms priority in
      elim r.metadata.deadline [ none ↦ default | some d ↦ if leb d 0 then default else d ]

  unfoldable pub is_urgent : PrioritySchedulerConfig → ℕ → ℕ → SchedulableRequest T → Bool
  is_urgent config now priority r =
      ltb (deadline_of config priority r) (now + config.urgency_threshold_ms)

  unfoldable pub urgent_in :
      PrioritySchedulerConfig → ℕ → ℕ → List (SchedulableRequest T) → Option (SchedulableRequest T)
  urgent_in config now priority [] = none
  urgent_in config now priority (r ∷ queue) =
      let rest = urgent_in config now priority queue in
      if is_urgent config now priority r then some r else rest

  unfoldable pub find_urgent_request :
      PrioritySchedulerConfig
      → ℕ
      → JsMap ℕ (List (SchedulableRequest T))
      → Option (SchedulableRequest T)
  find_urgent_request config now [] = none
  find_urgent_request config now ((priority, queue) ∷ queues) =
      let rest = find_urgent_request config now queues in
      elim (urgent_in config now priority queue) [ none ↦ rest | some r ↦ some r ]

  -- `reduce` to the first request for which a measure is least.
  unfoldable pub least :
      (SchedulableRequest T → ℕ)
      → SchedulableRequest T
      → List (SchedulableRequest T)
      → SchedulableRequest T
  least f best [] = best
  least f best (r ∷ queue) = least f (if ltb (f r) (f best) then r else best) queue

  unfoldable pub estimate_duration : SchedulableRequest T → ℕ
  estimate_duration r = elim r.metadata.estimated_tokens [
    | none ↦ default_estimate r.metadata.priority
    | some n ↦ if leb n 0 then default_estimate r.metadata.priority else n * 10
  ]

  -- The choice from the first queue of these priorities that is not empty.
  unfoldable pub pick :
      (SchedulableRequest T → List (SchedulableRequest T) → SchedulableRequest T)
      → List ℕ
      → JsMap ℕ (List (SchedulableRequest T))
      → Option (SchedulableRequest T)
  pick choose [] queues = none
  pick choose (p ∷ ps) queues =
      let rest = pick choose ps queues in
      elim (get p queues) [
        | none ↦ rest
        | some q ↦ elim q [ [] ↦ rest | r ∷ rs ↦ some (choose r rs) ]
      ]

  unfoldable pub select_low_priority_request : PriorityScheduler T → Option (SchedulableRequest T)
  select_low_priority_request s = pick (least (λ r. r.metadata.queued_at)) (3 ∷ 4 ∷ []) s.queues

  unfoldable pub select_next_request : PriorityScheduler T → Option (SchedulableRequest T)
  select_next_request s =
      pick (if s.config.shortest_job_first then least estimate_duration else (λ r rs. r))
        (0 ∷ 1 ∷ 2 ∷ 3 ∷ 4 ∷ []) s.queues

  -- Which request is scheduled.
  unfoldable pub choose : (ℕ → Bool) → ℕ → PriorityScheduler T → Option (SchedulableRequest T)
  choose fair now s =
      let next = select_next_request s in
      elim (find_urgent_request s.config now s.queues) [
        | some r ↦ some r
        | none ↦
            if fair (s.scheduling_decisions + 1)
            then (elim (select_low_priority_request s) [ none ↦ next | some r ↦ some r ])
            else next
      ]

  -- `findIndex` by the id, and `splice`.
  unfoldable pub remove_id : String → List (SchedulableRequest T) → List (SchedulableRequest T)
  remove_id id [] = []
  remove_id id (r ∷ queue) =
      let rest = remove_id id queue in if r.metadata.id == id then queue else r ∷ rest

  unfoldable pub remove_from_queue :
      SchedulableRequest T → PriorityScheduler T → PriorityScheduler T
  remove_from_queue r s = elim (get r.metadata.priority s.queues) [
    | none ↦ s
    | some queue ↦ record s {
      queues = put r.metadata.priority (remove_id r.metadata.id queue) s.queues;
    }
  ]

  unfoldable pub make_scheduling_decision :
      (ℕ → Bool) → ℕ → PriorityScheduler T → PriorityScheduler T × Option (SchedulableRequest T)
  make_scheduling_decision fair now s =
      let s' = record s { scheduling_decisions = s.scheduling_decisions + 1 } in
      elim (choose fair now s) [ none ↦ (s', none) | some r ↦ (remove_from_queue r s', some r) ]

  -- The part of `executeRequest` for the tenant.
  unfoldable pub serve : RequestMetadata → ℕ → PriorityScheduler T → PriorityScheduler T
  serve m now s = elim (tenant_of m) [
    | none ↦ s
    | some t ↦ record s {
      served_counts = put t (count_of t s.served_counts + 1) s.served_counts;
      last_served = put t now s.last_served;
      tenant_queue_depth = put t (count_of t s.tenant_queue_depth - 1) s.tenant_queue_depth;
    }
  ]

  -- `executeRequest` up to the `scheduleNext` at its end: the id enters `executing` and leaves it.
  unfoldable pub execute_request :
      SchedulableRequest T → ℕ → PriorityScheduler T → PriorityScheduler T
  execute_request r now s =
      let running = record s {
        executing = r.metadata.id ∷ s.executing;
        resolved = s.resolved ++ r ∷ [];
      } in
      let served = serve r.metadata now running in
      record served { executing = filter_b (λ i. not (i == r.metadata.id)) served.executing }

  -- On fuel, for as many requests as there are.
  unfoldable pub schedule_next : ℕ → (ℕ → Bool) → ℕ → PriorityScheduler T → PriorityScheduler T
  schedule_next zero fair now s = s
  schedule_next (suc fuel) fair now s =
      let (s', decision) = make_scheduling_decision fair now s in
      if leb s.config.max_concurrent (length s.executing) then s else elim decision [
        | none ↦ s'
        | some r ↦ schedule_next fuel fair now (execute_request r now s')
      ]

  unfoldable pub count_queued : RequestMetadata → PriorityScheduler T → PriorityScheduler T
  count_queued m s = elim (tenant_of m) [
    | none ↦ s
    | some t ↦ record s {
      tenant_queue_depth = put t (count_of t s.tenant_queue_depth + 1) s.tenant_queue_depth;
    }
  ]

  unfoldable pub enqueue :
      SchedulableRequest T → List (SchedulableRequest T) → PriorityScheduler T → PriorityScheduler T
  enqueue r queue s = record s { queues = put r.metadata.priority (queue ++ r ∷ []) s.queues }

  unfoldable pub schedule :
      (ℕ → Bool) → ℕ → PriorityScheduler T → SchedulableRequest T → PriorityScheduler T × Scheduled
  schedule fair now s r =
      if leb s.config.max_queue_size (get_total_queue_size s)
      then (s, queue_full)
      else elim (get r.metadata.priority s.queues) [
        | none ↦ (s, invalid_priority)
        | some queue ↦
            let queued = count_queued r.metadata (enqueue r queue s) in
            (schedule_next (suc (get_total_queue_size queued)) fair now queued, accepted)
      ]
