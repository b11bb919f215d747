-- ===== src/Controller/Sessions.antt =====
-- src/distributed/controller/session-registry.ts. `Date.now()` is the argument `now` of each
-- method that reads the clock. The cleanup timer is the flag `cleaning`; its ticks are calls of
-- `cleanup` that the environment makes. The hit rate, a quotient of floats, is kept as the pair
-- of its dividend and its divisor. Logging is left out.
pub mod Lookup
pub mod Sticky
mod Tests
use mlx_serving.Prelude.{
  ℕ, ◌+◌, Bool, true, false, Option, none, some, List, [], ◌∷◌, String, ◌==◌, string_eq,
  if◌then◌else◌, leb, ltb, length, is_some,
}
use mlx_serving.JsMap.{JsMap, get, put, delete, has, sweep}

pub record SessionEntry : Type 0 where
  pub session_id : String
  pub worker_id : String
  pub created_at : ℕ
  pub last_accessed_at : ℕ
  pub expires_at : ℕ

pub record SessionRegistryConfig : Type 0 where
  pub ttl_ms : ℕ
  pub cleanup_interval_ms : ℕ

pub record SessionRegistry : Type 0 where
  pub config : SessionRegistryConfig
  pub sessions : JsMap String SessionEntry
  pub cleaning : Bool
  pub total_lookups : ℕ
  pub total_hits : ℕ
  pub total_misses : ℕ
  pub expired_count : ℕ

pub record SessionRegistryStats : Type 0 where
  pub total_sessions : ℕ
  pub active_sessions : ℕ
  pub expired_sessions : ℕ
  pub hit_rate : ℕ × ℕ
  pub total_lookups : ℕ
  pub total_hits : ℕ
  pub total_misses : ℕ

-- The constructor, which starts the cleanup.
unfoldable pub new : SessionRegistryConfig → SessionRegistry
new config = record {
  config = config;
  sessions = [];
  cleaning = true;
  total_lookups = 0;
  total_hits = 0;
  total_misses = 0;
  expired_count = 0;
}

unfoldable pub set_session : SessionRegistry → String → String → ℕ → SessionRegistry
set_session r session_id worker_id now =
    let entry : SessionEntry = record {
      session_id = session_id;
      worker_id = worker_id;
      created_at = now;
      last_accessed_at = now;
      expires_at = now + r.config.ttl_ms;
    } in
    record r { sessions = put session_id entry r.sessions }

-- `entry.lastAccessedAt = now` writes to the entry that stands in the map.
unfoldable pub get_session : SessionRegistry → String → ℕ → SessionRegistry × Option String
get_session r session_id now =
    let r' = record r { total_lookups = r.total_lookups + 1 } in
    elim (get session_id r.sessions) [
      | none ↦ (record r' { total_misses = r.total_misses + 1 }, none)
      | some entry ↦
          if leb entry.expires_at now
          then (
            record r' {
              total_misses = r.total_misses + 1;
              expired_count = r.expired_count + 1;
              sessions = delete session_id r.sessions;
            },
            none,
          )
          else (
            record r' {
              sessions = put session_id (record entry { last_accessed_at = now }) r.sessions;
              total_hits = r.total_hits + 1;
            },
            some entry.worker_id,
          )
    ]

unfoldable pub remove_session : SessionRegistry → String → SessionRegistry × Bool
remove_session r session_id =
    let existed = has session_id r.sessions in
    (if existed then record r { sessions = delete session_id r.sessions } else r, existed)

unfoldable pub remove_sessions_by_worker : SessionRegistry → String → SessionRegistry × ℕ
remove_sessions_by_worker r worker_id =
    let (sessions, removed) = sweep (λ entry. entry.worker_id == worker_id) r.sessions in
    (record r { sessions = sessions }, removed)

-- The loop of `getSessionsByWorker`.
unfoldable pub session_ids_of : String → JsMap String SessionEntry → List String
session_ids_of worker_id [] = []
session_ids_of worker_id ((session_id, entry) ∷ m) =
    let rest = session_ids_of worker_id m in
    if entry.worker_id == worker_id then session_id ∷ rest else rest

unfoldable pub get_sessions_by_worker : SessionRegistry → String → List String
unfolding session_ids_of
get_sessions_by_worker r worker_id = session_ids_of worker_id r.sessions

unfoldable pub has_session : SessionRegistry → String → ℕ → Bool
has_session r session_id now = elim (get session_id r.sessions) [
  | none ↦ false
  | some entry ↦ ltb now entry.expires_at
]

unfoldable pub get_session_count : SessionRegistry → ℕ
get_session_count r = length r.sessions

unfoldable pub get_stats : SessionRegistry → SessionRegistryStats
get_stats r = record {
  total_sessions = r.total_lookups;
  active_sessions = length r.sessions;
  expired_sessions = r.expired_count;
  hit_rate = if ltb 0 r.total_lookups then (r.total_hits, r.total_lookups) else (0, 1);
  total_lookups = r.total_lookups;
  total_hits = r.total_hits;
  total_misses = r.total_misses;
}

unfoldable pub clear : SessionRegistry → SessionRegistry
clear r = record r { sessions = [] }

unfoldable pub stop_cleanup : SessionRegistry → SessionRegistry
stop_cleanup r = record r { cleaning = false }

unfoldable pub cleanup : SessionRegistry → ℕ → SessionRegistry × ℕ
cleanup r now =
    let (sessions, removed) = sweep (λ entry. leb entry.expires_at now) r.sessions in
    (record r { sessions = sessions; expired_count = r.expired_count + removed }, removed)

unfoldable pub destroy : SessionRegistry → SessionRegistry
unfolding clear stop_cleanup
destroy r = clear (stop_cleanup r)

-- The calls that a client, or the cleanup timer, makes.
pub data Call : Type 0 where
  sets : String → String → Call
  gets removes removes_worker : String → Call
  cleans clears : Call

unfoldable pub step : SessionRegistry → ℕ → Call → SessionRegistry
unfolding set_session get_session remove_session remove_sessions_by_worker cleanup clear
step r now (sets session_id worker_id) = set_session r session_id worker_id now
step r now (gets session_id) = (get_session r session_id now).0
step r now (removes session_id) = (remove_session r session_id).0
step r now (removes_worker worker_id) = (remove_sessions_by_worker r worker_id).0
step r now cleans = (cleanup r now).0
step r now clears = clear r

unfoldable pub run : SessionRegistry → List (ℕ × Call) → SessionRegistry
run r [] = r
run r ((now, c) ∷ cs) = run (step r now c) cs
