-- ===== src/Controller/Workers/Tests.antt =====
-- The worker registry of src/distributed/controller/worker-registry.ts on small inputs.
use mlx_serving.Prelude.{
  filter_b, not, ◌==◌, string_eq, ℕ, ◌≡◌, refl, false, none, List, [], ◌∷◌, String, string_eq, map,
}
use mlx_serving.JsMap.{get, put, delete}
use mlx_serving.Controller.Workers.{
  online, offline, WorkerRegistration, WorkerHeartbeat, WorkerInfo, WorkerRegistry, new_worker,
  re_register, add_worker, update_worker, remove_worker, mark_offline, get_worker,
  get_online_workers, get_offline_workers, get_worker_count, get_online_worker_count, has_worker,
  clear, registers, step, run,
}
use mlx_serving.Controller.Workers.Registry.{
  IsValid, run_workers-IsValid, get_online_workers-mark_offline,
}

program : Unit {0}
unfolding new_worker re_register add_worker update_worker remove_worker mark_offline get_worker
    get_online_workers get_offline_workers get_worker_count get_online_worker_count has_worker clear
    step run get put delete
program = tt

abbrev registration : String → ℕ → WorkerRegistration
registration id now = record {
  worker_id = id;
  hostname = "host";
  ip = "10.0.0.1";
  port = 8080;
  skills = record {
    available_models = "m" ∷ [];
    model_paths = [];
    total_model_size = 4;
    last_scanned = now;
  };
  status = online;
  timestamp = now;
}

abbrev two : WorkerRegistry
two = run [] (registers (registration "w1" 1) ∷ registers (registration "w2" 2) ∷ [])

two-IsValid : IsValid two
two-IsValid =
    run_workers-IsValid (registers (registration "w1" 1) ∷ registers (registration "w2" 2) ∷ [])

abbrev ids : List WorkerInfo → List String
ids workers = map (λ w. w.worker_id) workers

-- A worker that registers again keeps the time of its first registration and its place.
registers_again :
    (ids (get_online_workers (run two (registers (registration "w1" 9) ∷ []))) ≡ "w1" ∷ "w2" ∷ [])
    × (map
          (λ (w : WorkerInfo). w.registered_at)
          (get_online_workers (run two (registers (registration "w1" 9) ∷ [])))
        ≡ 1 ∷ 2 ∷ [])
unfolding program
registers_again = (refl, refl)

counts :
    (get_worker_count two ≡ 2)
    × (get_online_worker_count (mark_offline two "w1") ≡ 1)
    × (ids (get_offline_workers (mark_offline two "w1")) ≡ "w1" ∷ [])
    × (has_worker (remove_worker two "w1") "w1" ≡ false)
    × (get_worker (clear two) "w2" ≡ none)
unfolding program
counts = (refl, refl, refl, refl, refl)

abbrev beat : WorkerHeartbeat
beat = record {
  worker_id = "w1";
  status = offline;
  metrics = record { active_requests = 3; total_requests_handled = 7; models_loaded = [] };
  timestamp = 5;
}

get_online_workers-mark_offline_example :
    get_online_workers (mark_offline two "w1")
    ≡ filter_b (λ w. not (w.worker_id == "w1")) (get_online_workers two)
get_online_workers-mark_offline_example = get_online_workers-mark_offline two "w1" two-IsValid
