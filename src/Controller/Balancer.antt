-- ===== src/Controller/Balancer.antt =====
-- src/distributed/controller/load-balancers/smart-load-balancer.ts. Of a request only its model is
-- read; the readings of the clock within one selection are taken as one, `now`. An optional text
-- that is empty counts as absent, as JavaScript's `&&` has it. `Array.prototype.sort` is stable, and
-- is the insertion sort `sort_by_load`. Logging and the texts of errors are left out.
pub mod Memory
pub mod Ties
pub mod Select
pub mod Rounds
pub mod Affinity
mod Tests
use mlx_serving.Prelude.{
  ℕ, suc, ◌+◌, ◌%◌, Bool, true, false, ◌&&◌, Option, none, some, List, [], ◌∷◌, String, ◌==◌,
  string_eq, if◌then◌else◌, length, filter_b, find_b, leb, ltb, eqb, get_elem?,
}
use mlx_serving.JsMap.{includes}
use mlx_serving.Controller.Workers.{WorkerInfo, WorkerMetrics, is_online}
use mlx_serving.Controller.Sessions.{SessionRegistry, SessionRegistryConfig, SessionRegistryStats}
use mlx_serving.Controller.Sessions

pub record SmartLoadBalancerOptions : Type 0 where
  pub enable_session_affinity : Option Bool
  pub session_ttl_ms : Option ℕ
  pub session_cleanup_interval_ms : Option ℕ

pub record SmartLoadBalancer : Type 0 where
  pub current_index : ℕ
  pub session_registry : Option SessionRegistry

pub data SelectError : Type 0 where
  no_workers_available worker_unavailable : SelectError

pub data Selection : Type 0 where
  selected : WorkerInfo → Selection
  failed : SelectError → Selection
  -- The `TypeError` of reading a field of `undefined`.
  crashed : Selection

abbrev or_default {ℓ} : {A : Type ℓ} → Option A → A → A
or_default none d = d
or_default (some a) d = a

unfoldable pub new : SmartLoadBalancerOptions → SmartLoadBalancer
new options = record {
  current_index = 0;
  session_registry =
      if or_default options.enable_session_affinity false
      then some (
          Sessions.new (record {
            ttl_ms = or_default options.session_ttl_ms 1800000;
            cleanup_interval_ms = or_default options.session_cleanup_interval_ms 60000;
          }))
      else none;
}

-- `a.metrics?.activeRequests ?? 0`.
abbrev pub load : WorkerInfo → ℕ
load w = elim w.metrics [ none ↦ 0 | some m ↦ m.active_requests ]

unfoldable pub insert_by_load : WorkerInfo → List WorkerInfo → List WorkerInfo
insert_by_load w [] = w ∷ []
insert_by_load w (v ∷ vs) = if leb (load w) (load v) then w ∷ v ∷ vs else v ∷ insert_by_load w vs

unfoldable pub sort_by_load : List WorkerInfo → List WorkerInfo
unfolding insert_by_load
sort_by_load [] = []
sort_by_load (w ∷ ws) = insert_by_load w (sort_by_load ws)

abbrev pub has_model : String → WorkerInfo → Bool
has_model model_id w = includes w.skills.available_models model_id

-- The test of the second filter, which every worker passes.
abbrev is_capable : WorkerInfo → Bool
is_capable w = elim w.metrics [ none ↦ true | some m ↦ true ]

-- `eligibleWorkers`, from `skilledWorkers`.
unfoldable pub eligible_workers : List WorkerInfo → List WorkerInfo
eligible_workers skilled =
    let capable = filter_b is_capable skilled in if ltb 0 (length capable) then capable else skilled

-- `leastLoadedWorkers`, from `eligibleWorkers`.
unfoldable pub least_loaded_workers : List WorkerInfo → List WorkerInfo
least_loaded_workers eligible = elim (sort_by_load eligible) [
  | [] ↦ []
  | w ∷ ws ↦ filter_b (λ v. eqb (load v) (load w)) (w ∷ ws)
]

-- An optional text that JavaScript takes as true.
unfoldable pub truthy : Option String → Option String
truthy none = none
truthy (some s) = if s == "" then none else some s

-- The entry of the worker that a session is bound to, if that worker is online.
unfoldable pub find_online : String → List WorkerInfo → Option WorkerInfo
find_online worker_id workers = find_b (λ w. w.worker_id == worker_id && is_online w) workers

-- Phase 0: the registry after the lookup, and the worker that the session is bound to.
unfoldable pub affinity_worker :
    SessionRegistry → List WorkerInfo → String → ℕ → SessionRegistry × Option WorkerInfo
affinity_worker registry workers session_id now =
    let (registry', bound) = Sessions.get_session registry session_id now in
    elim (truthy bound) [
      | none ↦ (registry', none)
      | some worker_id ↦ elim (find_online worker_id workers) [
        | some w ↦ (registry', some w)
        | none ↦ ((Sessions.remove_session registry' session_id).0, none)
      ]
    ]

-- The end of `selectWorker`: the session, if any, is bound to the worker that is selected.
unfoldable pub bind_session : SmartLoadBalancer → Option String → WorkerInfo → ℕ → SmartLoadBalancer
bind_session b session_id w now = elim (truthy session_id) [
  | none ↦ b
  | some s ↦ elim b.session_registry [
    | none ↦ b
    | some registry ↦ record b {
      session_registry = some (Sessions.set_session registry s w.worker_id now);
    }
  ]
]

-- The round robin among the least loaded workers, and what follows it.
unfoldable pub take_turn :
    SmartLoadBalancer → List WorkerInfo → Option String → ℕ → SmartLoadBalancer × Selection
take_turn b least_loaded session_id now =
    let b' = record b { current_index = b.current_index + 1 } in
    elim (get_elem? least_loaded (b.current_index % length least_loaded)) [
      | none ↦ (b', crashed)
      | some w ↦ (bind_session b' session_id w now, selected w)
    ]

-- Phases 1 to 3 and the round robin.
unfoldable pub select_fresh :
    SmartLoadBalancer → List WorkerInfo → String → Option String → ℕ → SmartLoadBalancer × Selection
select_fresh b workers model_id session_id now =
    let online_workers = filter_b is_online workers in
    let skilled = filter_b (has_model model_id) online_workers in
    let least_loaded = least_loaded_workers (eligible_workers skilled) in
    if eqb (length online_workers) 0
    then (b, failed no_workers_available)
    else if eqb (length skilled) 0
    then (b, failed worker_unavailable)
    else take_turn b least_loaded session_id now

unfoldable pub select_worker :
    SmartLoadBalancer → List WorkerInfo → String → Option String → ℕ → SmartLoadBalancer × Selection
select_worker b workers model_id session_id now = elim (truthy session_id) [
  | none ↦ select_fresh b workers model_id session_id now
  | some s ↦ elim b.session_registry [
    | none ↦ select_fresh b workers model_id session_id now
    | some registry ↦
        let (registry', bound) = affinity_worker registry workers s now in
        let b' = record b { session_registry = some registry' } in
        elim bound [
          | some w ↦ (b', selected w)
          | none ↦ select_fresh b' workers model_id session_id now
        ]
  ]
]

unfoldable pub remove_sessions_for_worker : SmartLoadBalancer → String → SmartLoadBalancer × ℕ
remove_sessions_for_worker b worker_id = elim b.session_registry [
  | none ↦ (b, 0)
  | some registry ↦
      let (registry', removed) = Sessions.remove_sessions_by_worker registry worker_id in
      (record b { session_registry = some registry' }, removed)
]

unfoldable pub get_session_stats : SmartLoadBalancer → Option SessionRegistryStats
get_session_stats b = elim b.session_registry [
  | none ↦ none
  | some registry ↦ some (Sessions.get_stats registry)
]

unfoldable pub reset : SmartLoadBalancer → SmartLoadBalancer
reset b = record b { current_index = 0 }
