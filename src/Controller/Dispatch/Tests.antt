-- ===== src/Controller/Dispatch/Tests.antt =====
-- The routing of src/distributed/controller/controller-node.ts on small inputs.
use mlx_serving.Prelude.{ℕ, ◌≡◌, refl, true, false, none, some, [], ◌∷◌, String, string_eq, All}
use mlx_serving.JsMap.{get, put, delete, includes}
use mlx_serving.Controller.Workers.{
  online, WorkerRegistration, WorkerInfo, WorkerRegistry, new_worker, add_worker, step, run,
  registers, is_online, get_all_workers,
}
use mlx_serving.Controller.Workers.Registry.{run_workers-IsValid}
use mlx_serving.Controller.Breaker
use mlx_serving.Controller.Breaker.{can_make_request}
use mlx_serving.Controller.Breaker.Manager.{Manager, get_breaker, call_on, breaker_of}
use mlx_serving.Controller.Balancer
use mlx_serving.Controller.Balancer.{selected}
use mlx_serving.Controller.Balancer.Select.{In}
use mlx_serving.Controller.Retry.{
  RetryConfig, execute_with_retry, attempt_from, is_retryable, retryable_errors, exclude,
  calculate_delay,
}
use mlx_serving.Controller.Dispatch.{
  Controller, filter_healthy, filter_healthy_workers, choose_from, choose_worker, choose_single,
  chose, none_available, update_circuit_breaker, Reply, timeout_error, result_of,
  send_request_to_worker, execute_attempt,
}
use mlx_serving.Controller.Dispatch.Chosen.{choose_worker_sound}
use mlx_serving.Controller.Dispatch.Exclusion.{execute_with_retry-excludes_none}

program : Unit {0}
unfolding new_worker add_worker step run get put delete can_make_request get_breaker call_on
    breaker_of execute_with_retry attempt_from is_retryable retryable_errors exclude calculate_delay
    filter_healthy filter_healthy_workers choose_from choose_worker choose_single
    update_circuit_breaker result_of send_request_to_worker execute_attempt Breaker.new Breaker.step
    Breaker.record_failure Breaker.record_success Breaker.get_state Balancer.new
    Balancer.select_worker Balancer.select_fresh Balancer.take_turn Balancer.least_loaded_workers
    Balancer.eligible_workers Balancer.sort_by_load Balancer.insert_by_load Balancer.truthy
    Balancer.bind_session
program = tt

abbrev registration : String → WorkerRegistration
registration id = record {
  worker_id = id;
  hostname = "host";
  ip = "10.0.0.1";
  port = 8080;
  skills = record {
    available_models = "m" ∷ [];
    model_paths = [];
    total_model_size = 4;
    last_scanned = 1;
  };
  status = online;
  timestamp = 1;
}

abbrev workers : WorkerRegistry
workers = run [] (registers (registration "w1") ∷ registers (registration "w2") ∷ [])

abbrev breakers : Manager
breakers =
    call_on
      (record {
        breakers = [];
        config = record { failure_threshold = 1; success_threshold = 1; timeout_ms = 100 };
      })
      "w1" 10 Breaker.Call.fails

abbrev controller : Controller
controller = record {
  worker_registry = workers;
  load_balancer = Balancer.new (record {
    enable_session_affinity = none;
    session_ttl_ms = none;
    session_cleanup_interval_ms = none;
  });
  circuit_breaker_manager = some breakers;
}

abbrev w2 : WorkerInfo
w2 = new_worker (registration "w2")

-- The breaker of "w1" is open.
chooses :
    ((choose_worker controller [] "m" none 20).1 ≡ chose (selected w2))
    × ((choose_single controller "m" none 20).1 ≡ chose (selected w2))
    × ((choose_worker controller ("w2" ∷ []) "m" none 20).1 ≡ none_available)
unfolding program
chooses = (refl, refl, refl)

choose_worker_sound_example :
    In w2 (get_all_workers workers)
    × (is_online w2 ≡ true)
    × (includes {A = String} ("w3" ∷ []) "w2" ≡ false)
    × ((can_make_request (breaker_of breakers "w2") 20).1 ≡ true)
unfolding program
choose_worker_sound_example =
    choose_worker_sound controller breakers ("w3" ∷ []) "m" none 20 w2
      (run_workers-IsValid (registers (registration "w1") ∷ registers (registration "w2") ∷ []))
      refl refl

abbrev config : RetryConfig
config = record {
  max_retries = 1;
  retry_delay_ms = 10;
  exponential_backoff = false;
  max_delay_ms = 10;
  retry_on_errors = none;
}

abbrev no_reply : ℕ → WorkerInfo → Reply ℕ
no_reply n w = timeout_error

-- Both attempts go to "w2", which timed out at the first.
calls_twice :
    (execute_with_retry config
      (λ n excluded. (execute_attempt controller excluded "m" none (no_reply n) 20 30).1)).calls
    ≡ [] ∷ [] ∷ []
unfolding program
calls_twice = refl

execute_with_retry-excludes_none_example :
    All
      (λ excluded. excluded ≡ [])
      (execute_with_retry config
        (λ n excluded. (execute_attempt controller excluded "m" none (no_reply n) 20 30).1)).calls
execute_with_retry-excludes_none_example =
    execute_with_retry-excludes_none config (λ n excluded. controller) "m" none no_reply
      (λ n. (20, 30))
