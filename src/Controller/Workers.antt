-- ===== src/Controller/Workers.antt =====
-- src/distributed/controller/worker-registry.ts, with the messages that it reads, of
-- src/distributed/types/messages.ts. Of a worker's metrics the fields that are fractions
-- (percentages, gigabytes, milliseconds) are left out: no code of the controller reads them.
-- Logging is left out.
pub mod Registry
mod Tests
use mlx_serving.Prelude.{
  ℕ, Bool, true, false, Option, none, some, List, [], ◌∷◌, String, ◌==◌, string_eq, if◌then◌else◌,
  length, filter_b, is_some,
}
use mlx_serving.JsMap.{JsMap, get, put, delete, has, values}

pub data WorkerStatus : Type 0 where
  online offline degraded : WorkerStatus

pub record ModelSkills : Type 0 where
  pub available_models : List String
  pub model_paths : JsMap String String
  pub total_model_size : ℕ
  pub last_scanned : ℕ

pub record WorkerMetrics : Type 0 where
  pub active_requests : ℕ
  pub total_requests_handled : ℕ
  pub models_loaded : List String

pub record WorkerRegistration : Type 0 where
  pub worker_id : String
  pub hostname : String
  pub ip : String
  pub port : ℕ
  pub skills : ModelSkills
  pub status : WorkerStatus
  pub timestamp : ℕ

pub record WorkerHeartbeat : Type 0 where
  pub worker_id : String
  pub status : WorkerStatus
  pub metrics : WorkerMetrics
  pub timestamp : ℕ

pub record WorkerInfo : Type 0 where
  pub worker_id : String
  pub hostname : String
  pub ip : String
  pub port : ℕ
  pub skills : ModelSkills
  pub status : WorkerStatus
  pub metrics : Option WorkerMetrics
  pub last_heartbeat : ℕ
  pub registered_at : ℕ
  pub priority : ℕ
  pub tags : List String

abbrev pub WorkerRegistry : Type 0
WorkerRegistry = JsMap String WorkerInfo

abbrev pub is_online : WorkerInfo → Bool
is_online w = elim w.status [ online ↦ true | _ ↦ false ]

abbrev pub is_offline : WorkerInfo → Bool
is_offline w = elim w.status [ offline ↦ true | _ ↦ false ]

-- The entry for a worker that was not registered, with the default priority.
unfoldable pub new_worker : WorkerRegistration → WorkerInfo
new_worker registration = record {
  worker_id = registration.worker_id;
  hostname = registration.hostname;
  ip = registration.ip;
  port = registration.port;
  skills = registration.skills;
  status = registration.status;
  metrics = none;
  last_heartbeat = registration.timestamp;
  registered_at = registration.timestamp;
  priority = 50;
  tags = [];
}

-- The assignments to the entry of a worker that registers again.
unfoldable pub re_register : WorkerInfo → WorkerRegistration → WorkerInfo
re_register existing registration = record existing {
  hostname = registration.hostname;
  ip = registration.ip;
  port = registration.port;
  skills = registration.skills;
  status = registration.status;
  last_heartbeat = registration.timestamp;
}

unfoldable pub add_worker : WorkerRegistry → WorkerRegistration → WorkerRegistry
add_worker workers registration = elim (get registration.worker_id workers) [
  | some existing ↦ put registration.worker_id (re_register existing registration) workers
  | none ↦ put registration.worker_id (new_worker registration) workers
]

unfoldable pub update_worker : WorkerRegistry → WorkerHeartbeat → WorkerRegistry
update_worker workers heartbeat = elim (get heartbeat.worker_id workers) [
  | none ↦ workers
  | some worker ↦
      put heartbeat.worker_id
        (record worker {
          status = heartbeat.status;
          metrics = some heartbeat.metrics;
          last_heartbeat = heartbeat.timestamp;
        })
        workers
]

unfoldable pub remove_worker : WorkerRegistry → String → WorkerRegistry
remove_worker workers worker_id = elim (get worker_id workers) [
  | none ↦ workers
  | some worker ↦ delete worker_id workers
]

unfoldable pub mark_offline : WorkerRegistry → String → WorkerRegistry
mark_offline workers worker_id = elim (get worker_id workers) [
  | none ↦ workers
  | some worker ↦
      if is_offline worker
      then workers
      else put worker_id (record worker { status = offline }) workers
]

unfoldable pub get_worker : WorkerRegistry → String → Option WorkerInfo
get_worker workers worker_id = get worker_id workers

abbrev pub get_all_workers : WorkerRegistry → List WorkerInfo
get_all_workers workers = values workers

unfoldable pub get_online_workers : WorkerRegistry → List WorkerInfo
get_online_workers workers = filter_b is_online (get_all_workers workers)

unfoldable pub get_offline_workers : WorkerRegistry → List WorkerInfo
get_offline_workers workers = filter_b is_offline (get_all_workers workers)

unfoldable pub get_worker_count : WorkerRegistry → ℕ
get_worker_count workers = length workers

unfoldable pub get_online_worker_count : WorkerRegistry → ℕ
unfolding get_online_workers
get_online_worker_count workers = length (get_online_workers workers)

unfoldable pub has_worker : WorkerRegistry → String → Bool
has_worker workers worker_id = has worker_id workers

unfoldable pub clear : WorkerRegistry → WorkerRegistry
clear workers = []

pub data Message : Type 0 where
  registers : WorkerRegistration → Message
  beats : WorkerHeartbeat → Message
  removes marks_offline : String → Message
  clears : Message

unfoldable pub step : WorkerRegistry → Message → WorkerRegistry
step workers (registers registration) = add_worker workers registration
step workers (beats heartbeat) = update_worker workers heartbeat
step workers (removes worker_id) = remove_worker workers worker_id
step workers (marks_offline worker_id) = mark_offline workers worker_id
step workers clears = clear workers

unfoldable pub run : WorkerRegistry → List Message → WorkerRegistry
run workers [] = workers
run workers (m ∷ ms) = run (step workers m) ms
