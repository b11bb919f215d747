-- ===== src/Controller/Dispatch/Chosen.antt =====
-- Which worker the controller chooses for an attempt at a request.
use mlx_serving.Prelude.{
  ℕ, ◌≡◌, inl, inr, Bool, true, false, not, Option, some, List, [], ◌∷◌, String, ◌==◌, string_eq,
  filter_b, Bool-cases, Option-cases, arith, subst, ◌&&◌,
}
use mlx_serving.JsMap.{includes}
use mlx_serving.Controller.Workers.{WorkerInfo, is_online, get_all_workers}
use mlx_serving.Controller.Workers.Registry.{IsValid}
use mlx_serving.Controller.Breaker.{can_make_request}
use mlx_serving.Controller.Breaker.Manager.{Manager, breaker_of}
use mlx_serving.Controller.Balancer.{
  SmartLoadBalancer, selected, select_worker, truthy, find_online, affinity_worker,
}
use mlx_serving.Controller.Balancer.Select.{In, In-filter_b, select_fresh_sound}
use mlx_serving.Controller.Sessions
use mlx_serving.Controller.Sessions.{SessionRegistry}
use mlx_serving.Controller.Dispatch.{
  Controller, chose, filter_healthy, filter_healthy_workers, choose_from, choose_worker,
}
use mlx_serving.Controller.Dispatch.Healthy.{allows, filter_healthy_lem, values-DistinctIds}

In-find_online :
    (id : String) (ws : List WorkerInfo) {w : WorkerInfo}
    → find_online id ws ≡ some w
    → In w ws × (is_online w ≡ true)
unfolding find_online
In-find_online id [] h = cc
In-find_online id (v ∷ vs) {w} h = elim (Bool-cases (v.worker_id == id && is_online v)) [
  | inl e ↦ let same : some v ≡ some w = rw e at h in (inl (cc), ground arith)
  | inr e ↦ let (m, o) = In-find_online id vs {w = w} (rw e at h) in (inr m, o)
]

In-affinity_worker :
    (r : SessionRegistry) (ws : List WorkerInfo) (s : String) (now : ℕ) {w : WorkerInfo}
    → (affinity_worker r ws s now).1 ≡ some w
    → In w ws × (is_online w ≡ true)
unfolding affinity_worker
In-affinity_worker r ws s now {w} h =
    elim (Option-cases (truthy (Sessions.get_session r s now).1)) [
      | inl e ↦ absurd (ground arith)
      | inr (id, e) ↦ In-find_online id ws {w = w} (ground arith)
    ]

select_worker-In :
    (b : SmartLoadBalancer) (ws : List WorkerInfo) (model_id : String) (session_id : Option String)
    (now : ℕ) (w : WorkerInfo)
    → (select_worker b ws model_id session_id now).1 ≡ selected w
    → In w ws × (is_online w ≡ true)
unfolding select_worker
select_worker-In b ws model_id session_id now w h = elim (Option-cases (truthy session_id)) [
  | inl e ↦
      let (m, o, _, _) = select_fresh_sound b ws model_id session_id now w (ground arith) in (m, o)
  | inr (s, e) ↦ elim (Option-cases b.session_registry) [
    | inl f ↦
        let (m, o, _, _) = select_fresh_sound b ws model_id session_id now w (ground arith) in
        (m, o)
    | inr (r, f) ↦ elim (Option-cases (affinity_worker r ws s now).1) [
      | inl g ↦
          let b' = record b { session_registry = some (affinity_worker r ws s now).0 } in
          let (m, o, _, _) = select_fresh_sound b' ws model_id session_id now w (ground arith) in
          (m, o)
      | inr (v, g) ↦ In-affinity_worker r ws s now {w = w} (ground arith)
    ]
  ]
]

choose_from-In :
    (c : Controller) (ws : List WorkerInfo) (model_id : String) (session_id : Option String)
    (now : ℕ) (w : WorkerInfo)
    → (choose_from c ws model_id session_id now).1 ≡ chose (selected w)
    → In w ws × (is_online w ≡ true)
unfolding choose_from
choose_from-In c [] model_id session_id now w h = absurd (cc)
choose_from-In c (v ∷ vs) model_id session_id now w h =
    select_worker-In c.load_balancer (v ∷ vs) model_id session_id now w (cc)

-- With circuit breakers, on a registry in which every worker has one entry, under its id: the
-- worker that is chosen for an attempt, by affinity or not, is registered, online, not among those
-- excluded, and its breaker let a request through at that time.
pub choose_worker_sound :
    (c : Controller) (m : Manager) (excluded : List String) (model_id : String)
    (session_id : Option String) (now : ℕ) (w : WorkerInfo)
    → IsValid c.worker_registry
    → c.circuit_breaker_manager ≡ some m
    → (choose_worker c excluded model_id session_id now).1 ≡ chose (selected w)
    → In w (get_all_workers c.worker_registry)
      × (is_online w ≡ true)
      × (includes excluded w.worker_id ≡ false)
      × ((can_make_request (breaker_of m w.worker_id) now).1 ≡ true)
unfolding choose_worker filter_healthy_workers
choose_worker_sound c m excluded model_id session_id now w v e h =
    let healthy = (filter_healthy m (get_all_workers c.worker_registry) now).1 in
    let c' = record c {
      circuit_breaker_manager = some (filter_healthy m (get_all_workers c.worker_registry) now).0;
    } in
    let tried : WorkerInfo → Bool = λ u. not (includes excluded u.worker_id) in
    let (given, on) =
      choose_from-In c' (filter_b tried healthy) model_id session_id now w (rw e at h) in
    let (kept, free) = In-filter_b tried healthy given in
    let same =
      filter_healthy_lem m (get_all_workers c.worker_registry) now
        (values-DistinctIds c.worker_registry v) in
    let (there, allowed) =
      In-filter_b (allows m now) (get_all_workers c.worker_registry) (subst (In w) same kept) in
    (there, on, ground arith, allowed)
