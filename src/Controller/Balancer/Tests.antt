-- ===== src/Controller/Balancer/Tests.antt =====
-- The load balancer of src/distributed/controller/load-balancers/smart-load-balancer.ts on small
-- inputs.
use mlx_serving.Prelude.{
  arith, ℕ, ◌≤◌, ◌≡◌, refl, true, none, some, List, [], ◌∷◌, String, string_eq, All,
}
use mlx_serving.JsMap.{get, put, delete}
use mlx_serving.Controller.Workers.{WorkerInfo, WorkerStatus, online, offline, is_online}
use mlx_serving.Controller.Sessions
use mlx_serving.Controller.Sessions.{SessionRegistry}
use mlx_serving.Controller.Sessions.Lookup.{run_sessions-IsValid}
use mlx_serving.Controller.Balancer.{
  SmartLoadBalancer, new, failed, no_workers_available, worker_unavailable, load, has_model,
  insert_by_load, sort_by_load, eligible_workers, least_loaded_workers, truthy, find_online,
  affinity_worker, bind_session, take_turn, select_fresh, select_worker, remove_sessions_for_worker,
  get_session_stats, reset,
}
use mlx_serving.Controller.Balancer.Memory.{starts_with, includes_text, estimate_model_memory}
use mlx_serving.Controller.Balancer.Select.{In, candidates, select_fresh_sound}
use mlx_serving.Controller.Balancer.Rounds.{select_times}
use mlx_serving.Controller.Balancer.Affinity.{Bound, select_worker-Bound}

program : Unit {0}
unfolding new insert_by_load sort_by_load eligible_workers least_loaded_workers truthy find_online
    affinity_worker bind_session take_turn select_fresh select_worker remove_sessions_for_worker
    get_session_stats reset select_times starts_with includes_text estimate_model_memory get put
    delete Sessions.new Sessions.set_session Sessions.get_session Sessions.remove_session
    Sessions.remove_sessions_by_worker Sessions.get_stats Sessions.step Sessions.run
program = tt

abbrev worker : String → WorkerStatus → String → ℕ → WorkerInfo
worker id status model active = record {
  worker_id = id;
  hostname = "host";
  ip = "10.0.0.1";
  port = 8080;
  skills = record {
    available_models = model ∷ [];
    model_paths = [];
    total_model_size = 4;
    last_scanned = 1;
  };
  status = status;
  metrics =
      some (record { active_requests = active; total_requests_handled = 9; models_loaded = [] });
  last_heartbeat = 1;
  registered_at = 1;
  priority = 50;
  tags = [];
}

abbrev w1 : WorkerInfo
w1 = worker "w1" online "m" 2

abbrev w2 : WorkerInfo
w2 = worker "w2" online "m" 1

abbrev w3 : WorkerInfo
w3 = worker "w3" online "m" 1

abbrev w4 : WorkerInfo
w4 = worker "w4" online "other" 0

abbrev fleet : List WorkerInfo
fleet = w1 ∷ w2 ∷ worker "w0" offline "m" 0 ∷ w4 ∷ w3 ∷ []

abbrev plain : SmartLoadBalancer
plain = new (record {
  enable_session_affinity = none;
  session_ttl_ms = none;
  session_cleanup_interval_ms = none;
})

fails :
    ((select_worker plain [] "m" none 0).1 ≡ failed no_workers_available)
    × ((select_worker plain fleet "absent" none 0).1 ≡ failed worker_unavailable)
    × ((reset (select_worker plain fleet "m" none 0).0).current_index ≡ 0)
unfolding program
fails = (refl, refl, refl)

select_fresh_sound_example :
    In w2 fleet
    × (is_online w2 ≡ true)
    × (has_model "m" w2 ≡ true)
    × All (λ v. load w2 ≤ load v) (candidates "m" fleet)
unfolding program
select_fresh_sound_example = select_fresh_sound plain fleet "m" none 0 w2 refl

abbrev calls : List (ℕ × Sessions.Call)
calls = (10, Sessions.Call.sets "s" "w4") ∷ []

abbrev bound : SessionRegistry
bound = Sessions.run (Sessions.new (record { ttl_ms = 100; cleanup_interval_ms = 60 })) calls

abbrev sticky : SmartLoadBalancer
sticky = record { current_index = 0; session_registry = some bound }

-- The session's worker is taken though it does not have the model that is asked for.
select_worker-Bound_example :
    Bound (select_worker sticky fleet "m" (some "s") 20).0 bound fleet "s" 20 w4
unfolding program
select_worker-Bound_example =
    select_worker-Bound sticky bound fleet "m" "s" 20 w4 refl
      (run_sessions-IsValid (record { ttl_ms = 100; cleanup_interval_ms = 60 }) calls) refl
      (omega arith) refl
