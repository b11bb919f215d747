-- ===== src/Controller/Dispatch/Healthy.antt =====
-- Which workers the controller's filter by circuit breakers lets through.
use mlx_serving.Prelude.{
  ℕ, ◌≡◌, refl, sym, ap, ◌∙◌, Bool, false, none, List, [], ◌∷◌, String, ◌==◌, string_eq, ==_sym,
  if◌then◌else◌, filter_b, All, arith, subst,
}
use mlx_serving.JsMap.{get, values}
use mlx_serving.Controller.Workers.{WorkerInfo, WorkerRegistry}
use mlx_serving.Controller.Workers.Registry.{IsValid, Keyed}
use mlx_serving.Controller.Breaker.{can_make_request, asks, reads}
use mlx_serving.Controller.Breaker.Manager.{Manager, breaker_of, call_on, breaker_of-call_on}
use mlx_serving.Controller.Dispatch.{filter_healthy}

-- No two workers of the list have the same id.
abbrev pub DistinctIds : List WorkerInfo → Type 0
DistinctIds [] = Unit
DistinctIds (w ∷ ws) = All (λ v. (w.worker_id == v.worker_id) ≡ false) ws × DistinctIds ws

All-values :
    (k : String) (m : WorkerRegistry)
    → Keyed m
    → get k m ≡ none
    → All (λ v. (k == v.worker_id) ≡ false) (values m)
unfolding get
All-values k [] d h = tt
All-values k ((j, w) ∷ m) d h = (ground (arith, ==_sym j k), All-values k m d.1 (ground arith))

pub values-DistinctIds : (m : WorkerRegistry) → IsValid m → DistinctIds (values m)
values-DistinctIds [] v = tt
values-DistinctIds ((k, w) ∷ m) v = (
  subst (λ id. All (λ u. (id == u.worker_id) ≡ false) (values m)) (sym v.keyed.0)
      (All-values k m v.keyed.1 v.distinct.0),
  values-DistinctIds m (record { distinct = v.distinct.1; keyed = v.keyed.1 }),
)

-- The breaker of the worker lets a request through at `now`.
abbrev pub allows : Manager → ℕ → WorkerInfo → Bool
allows m now w = (can_make_request (breaker_of m w.worker_id) now).1

abbrev asked : Manager → WorkerInfo → ℕ → Manager
asked m w now =
    let m' = call_on m w.worker_id now asks in
    if allows m now w then m' else call_on m' w.worker_id now reads

breaker_of-asked :
    (m : Manager) (w : WorkerInfo) (now : ℕ) (j : String)
    → (w.worker_id == j) ≡ false
    → breaker_of (asked m w now) j ≡ breaker_of m j
breaker_of-asked m w now j n = ground (
  arith,
  breaker_of-call_on m w.worker_id j now asks,
  breaker_of-call_on (call_on m w.worker_id now asks) w.worker_id j now reads,
)

filter_b-asked :
    (m : Manager) (w : WorkerInfo) (now : ℕ) (ws : List WorkerInfo)
    → All (λ v. (w.worker_id == v.worker_id) ≡ false) ws
    → filter_b (allows (asked m w now) now) ws ≡ filter_b (allows m now) ws
filter_b-asked m w now [] a = refl
filter_b-asked m w now (v ∷ vs) a =
    let same : allows (asked m w now) now v ≡ allows m now v =
      ap (λ b. (can_make_request b now).1) (breaker_of-asked m w now v.worker_id a.0) in
    rw (same, filter_b-asked m w now vs a.1)

-- On workers with different ids the loop, which may change a breaker at every worker, keeps those
-- workers, in their order, whose breakers let a request through before the loop began.
pub filter_healthy_lem :
    (m : Manager) (ws : List WorkerInfo) (now : ℕ)
    → DistinctIds ws
    → (filter_healthy m ws now).1 ≡ filter_b (allows m now) ws
unfolding filter_healthy
filter_healthy_lem m [] now d = refl
filter_healthy_lem m (w ∷ ws) now d =
    ap (λ l. if allows m now w then w ∷ l else l)
      (filter_healthy_lem (asked m w now) ws now d.1 ∙ filter_b-asked m w now ws d.0)
