-- ===== src/Controller/Dispatch.antt =====
-- The routing of a request in src/distributed/controller/controller-node.ts: the filter of workers
-- by their circuit breakers, one attempt of the retry handler's executor, and the request without
-- retries. What comes back from a worker over NATS is the argument `reply`, sorted by the tests
-- that `sendRequestToWorker` makes on an error's message; an error of the NATS client carries a
-- code and, as its class has it in src/distributed/utils/errors.ts, no worker. The readings of the
-- clock within the choice of a worker are taken as one, `now`. The metrics of requests, logging
-- and the wiring to NATS, HTTP and WebSocket are left out.
pub mod Healthy
pub mod Chosen
pub mod Exclusion
mod Tests
use mlx_serving.Prelude.{
  ℕ, Bool, true, false, not, Option, none, some, List, [], ◌∷◌, String, if◌then◌else◌, filter_b,
  string_eq,
}
use mlx_serving.JsMap.{includes}
use mlx_serving.Controller.Workers.{WorkerInfo, WorkerRegistry, get_all_workers}
use mlx_serving.Controller.Breaker.{can_make_request, asks, reads, succeeds, fails}
use mlx_serving.Controller.Breaker.Manager.{Manager, breaker_of, call_on}
use mlx_serving.Controller.Balancer.{
  SmartLoadBalancer, Selection, selected, crashed, SelectError, select_worker,
}
use mlx_serving.Controller.Balancer
use mlx_serving.Controller.Retry.{Failure, Attempt, succeeded, failed}

pub record Controller : Type 0 where
  pub worker_registry : WorkerRegistry
  pub load_balancer : SmartLoadBalancer
  pub circuit_breaker_manager : Option Manager

-- The loop of `filterHealthyWorkers`; a breaker that refuses is asked for its state, too.
unfoldable pub filter_healthy : Manager → List WorkerInfo → ℕ → Manager × List WorkerInfo
filter_healthy m [] now = (m, [])
filter_healthy m (w ∷ ws) now =
    let can = (can_make_request (breaker_of m w.worker_id) now).1 in
    let asked = call_on m w.worker_id now asks in
    let (m', healthy) =
      filter_healthy (if can then asked else call_on asked w.worker_id now reads) ws now in
    (m', if can then w ∷ healthy else healthy)

unfoldable pub filter_healthy_workers :
    Controller → List WorkerInfo → ℕ → Controller × List WorkerInfo
unfolding filter_healthy
filter_healthy_workers c workers now = elim c.circuit_breaker_manager [
  | none ↦ (c, workers)
  | some m ↦
      let (m', healthy) = filter_healthy m workers now in
      (record c { circuit_breaker_manager = some m' }, healthy)
]

pub data Choice : Type 0 where
  -- The controller's own `NO_WORKERS_AVAILABLE` or `NO_HEALTHY_WORKERS`.
  none_available : Choice
  chose : Selection → Choice

-- The worker for a request, from the workers that may be tried.
unfoldable pub choose_from :
    Controller → List WorkerInfo → String → Option String → ℕ → Controller × Choice
choose_from c [] model_id session_id now = (c, none_available)
choose_from c (w ∷ ws) model_id session_id now =
    let (b, selection) = select_worker c.load_balancer (w ∷ ws) model_id session_id now in
    (record c { load_balancer = b }, chose selection)

-- The first half of the executor that `executeWithRetry` hands to the retry handler.
unfoldable pub choose_worker :
    Controller → List String → String → Option String → ℕ → Controller × Choice
unfolding choose_from
choose_worker c excluded_workers model_id session_id now =
    let (c', healthy) = filter_healthy_workers c (get_all_workers c.worker_registry) now in
    choose_from c' (filter_b (λ w. not (includes excluded_workers w.worker_id)) healthy) model_id
      session_id now

-- The first half of `executeSingleRequest`.
unfoldable pub choose_single : Controller → String → Option String → ℕ → Controller × Choice
unfolding choose_from
choose_single c model_id session_id now =
    let (c', healthy) = filter_healthy_workers c (get_all_workers c.worker_registry) now in
    choose_from c' healthy model_id session_id now

unfoldable pub update_circuit_breaker : Controller → String → Bool → ℕ → Controller
update_circuit_breaker c worker_id success now = elim c.circuit_breaker_manager [
  | none ↦ c
  | some m ↦
      let m' = call_on m worker_id now (if success then succeeds else fails) in
      record c { circuit_breaker_manager = some (call_on m' worker_id now reads) }
]

-- The error that the load balancer throws, by its code.
unfoldable pub selection_error : SelectError → Failure
selection_error Balancer.no_workers_available = record {
  code = some "NO_WORKERS_AVAILABLE";
  worker_id = none;
}
selection_error Balancer.worker_unavailable = record {
  code = some "WORKER_UNAVAILABLE";
  worker_id = none;
}

pub data Reply (T : Type 0) : Type 0 where
  stream : T → Reply T
  -- An error whose message says `timeout`, one that says `unavailable` or `connection`, and any
  -- other, with its code.
  timeout_error unavailable_error : Reply T
  other_error : Option String → Reply T

module _ {T : Type 0} where
  -- The result of `sendRequestToWorker`. A `ControllerError` has the worker in its `context`; it
  -- has no field `workerId`.
  unfoldable pub result_of : Reply T → Attempt T
  result_of (stream t) = succeeded t
  result_of timeout_error = failed (record { code = some "WORKER_TIMEOUT"; worker_id = none })
  result_of unavailable_error =
      failed (record { code = some "WORKER_UNAVAILABLE"; worker_id = none })
  result_of (other_error code) = failed (record { code = code; worker_id = none })

  is_stream : Reply T → Bool
  is_stream (stream t) = true
  is_stream _ = false

  unfoldable pub send_request_to_worker :
      Controller → WorkerInfo → Reply T → ℕ → Controller × Attempt T
  unfolding is_stream
  send_request_to_worker c worker reply now =
      (update_circuit_breaker c worker.worker_id (is_stream reply) now, result_of reply)

  -- The executor: a choice at `now`, and the reply of the worker, if one is chosen, at `later`.
  unfoldable pub execute_attempt :
      Controller
      → List String
      → String
      → Option String
      → (WorkerInfo → Reply T)
      → ℕ
      → ℕ
      → Controller × Attempt T
  unfolding selection_error
  execute_attempt c excluded_workers model_id session_id reply now later =
      let (c', choice) = choose_worker c excluded_workers model_id session_id now in
      elim choice [
        | none_available ↦
            (c', failed (record { code = some "NO_WORKERS_AVAILABLE"; worker_id = none }))
        | chose selection ↦ elim selection [
          | selected w ↦ send_request_to_worker c' w (reply w) later
          | Balancer.failed e ↦ (c', failed (selection_error e))
          | crashed ↦ (c', failed (record { code = none; worker_id = none }))
        ]
      ]
