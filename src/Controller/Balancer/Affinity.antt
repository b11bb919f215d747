-- ===== src/Controller/Balancer/Affinity.antt =====
-- Session affinity in src/distributed/controller/load-balancers/smart-load-balancer.ts.
use mlx_serving.Prelude.{
  Bool, not, ◌⊎◌, All, sym, ◌∙◌, subst, ℕ, ◌+◌, ◌<◌, ◌≡◌, refl, ap, inl, inr, true, false, ◌&&◌,
  Option, none, some, List, [], ◌∷◌, String, ◌==◌, string_eq, arith, Bool-cases, filter_b,
  Option-cases,
}
use mlx_serving.JsMap.{get-put_self}
use mlx_serving.Controller.Balancer.Select.{In, select_fresh_sound}
use mlx_serving.Controller.Workers.{WorkerInfo, is_online}
use mlx_serving.Controller.Sessions
use mlx_serving.Controller.Sessions.{SessionRegistry, SessionEntry}
use mlx_serving.Controller.Sessions.Lookup.{IsValid, route, get_session_lem}
use mlx_serving.Controller.Balancer.{
  SmartLoadBalancer, selected, bind_session, take_turn, select_fresh, truthy, find_online,
  affinity_worker, select_worker, least_loaded_workers, eligible_workers, has_model,
}

-- An online worker that a session is routed to, under an id that is not empty.
abbrev pub is_routed : Option String → WorkerInfo → Bool
is_routed none w = false
is_routed (some id) w = not (id == "") && w.worker_id == id && is_online w

find_online_lem :
    (id : String) (workers : List WorkerInfo) {w : WorkerInfo}
    → find_online id workers ≡ some w
    → (w.worker_id ≡ id) × (is_online w ≡ true)
unfolding find_online
find_online_lem id [] h = cc
find_online_lem id (v ∷ vs) {w} h = elim (Bool-cases (v.worker_id == id && is_online v)) [
  | inl e ↦ ground (arith, string_eq.test_iff v.worker_id id)
  | inr e ↦ find_online_lem id vs {w = w} (rw e at h)
]

set_session-route :
    (r : SessionRegistry) (s id : String) (now later : ℕ)
    → later < now + r.config.ttl_ms
    → route (Sessions.set_session r s id now) s later ≡ some id
unfolding Sessions.set_session
set_session-route r s id now later l =
    let entry : SessionEntry = record {
      session_id = s;
      worker_id = id;
      created_at = now;
      last_accessed_at = now;
      expires_at = now + r.config.ttl_ms;
    } in
    ground (arith, get-put_self s entry r.sessions)

take_turn-binds :
    (b : SmartLoadBalancer) (l : List WorkerInfo) (registry : SessionRegistry) (s : String)
    (now : ℕ) (w : WorkerInfo)
    → b.session_registry ≡ some registry
    → (s == "") ≡ false
    → (take_turn b l (some s) now).1 ≡ selected w
    → (take_turn b l (some s) now).0.session_registry
      ≡ some (Sessions.set_session registry s w.worker_id now)
unfolding take_turn bind_session truthy
take_turn-binds b l registry s now w e n h = ground arith

select_fresh-binds :
    (b : SmartLoadBalancer) (workers : List WorkerInfo) (model_id s : String)
    (registry : SessionRegistry) (now : ℕ) (w : WorkerInfo)
    → b.session_registry ≡ some registry
    → (s == "") ≡ false
    → (select_fresh b workers model_id (some s) now).1 ≡ selected w
    → (select_fresh b workers model_id (some s) now).0.session_registry
      ≡ some (Sessions.set_session registry s w.worker_id now)
unfolding select_fresh
select_fresh-binds b workers model_id s registry now w e n h =
    let skilled = filter_b (has_model model_id) (filter_b is_online workers) in
    ground (
      arith,
      take_turn-binds b (least_loaded_workers (eligible_workers skilled)) registry s now w e n,
    )

-- The registry after a session has been looked up, and dropped if its worker is gone.
affinity_registry :
    (r : SessionRegistry) (workers : List WorkerInfo) (s : String) (now : ℕ)
    → (affinity_worker r workers s now).0.config ≡ r.config
unfolding affinity_worker Sessions.get_session Sessions.remove_session
affinity_registry r workers s now = ground arith

truthy_lem : (o : Option String) {id : String} → truthy o ≡ some id → o ≡ some id
unfolding truthy
truthy_lem none h = cc
truthy_lem (some t) h = ground arith

affinity-routed :
    (r : SessionRegistry) (workers : List WorkerInfo) (s : String) (now : ℕ) (w : WorkerInfo)
    → IsValid r
    → (affinity_worker r workers s now).1 ≡ some w
    → route (affinity_worker r workers s now).0 s now ≡ some w.worker_id
unfolding affinity_worker
affinity-routed r workers s now w v h =
    let answer = get_session_lem r s s now now v (omega arith) in
    elim (Option-cases (truthy (Sessions.get_session r s now).1)) [
      | inl e ↦ absurd (ground arith)
      | inr (id, e) ↦ elim (Option-cases (find_online id workers)) [
        | inl f ↦ absurd (ground arith)
        | inr (u, f) ↦ ground (
          arith,
          answer,
          find_online_lem id workers {w = u} f,
          truthy_lem (Sessions.get_session r s now).1 {id = id} e,
        )
      ]
    ]

find_online-In :
    (id : String) (workers : List WorkerInfo) {w : WorkerInfo}
    → find_online id workers ≡ some w
    → In w workers
unfolding find_online
find_online-In id [] h = cc
find_online-In id (v ∷ vs) {w} h = elim (Bool-cases (v.worker_id == id && is_online v)) [
  | inl e ↦ inl (ground arith)
  | inr e ↦ inr (find_online-In id vs {w = w} (rw e at h))
]

find_online-none :
    (id : String) (workers : List WorkerInfo)
    → find_online id workers ≡ none
    → All (λ v. is_routed (some id) v ≡ false) workers
unfolding find_online
find_online-none id [] h = tt
find_online-none id (v ∷ vs) h = elim (Bool-cases (v.worker_id == id && is_online v)) [
  | inl e ↦ absurd (ground arith)
  | inr e ↦ (ground arith, find_online-none id vs (rw e at h))
]

truthy-none :
    (o : Option String) (workers : List WorkerInfo)
    → truthy o ≡ none
    → All (λ v. is_routed o v ≡ false) workers
unfolding truthy
truthy-none o [] h = tt
truthy-none none (v ∷ vs) h = (refl, truthy-none none vs h)
truthy-none (some id) (v ∷ vs) h = (ground arith, truthy-none (some id) vs h)

affinity_none :
    (r : SessionRegistry) (workers : List WorkerInfo) (s : String) (now : ℕ)
    → IsValid r
    → (affinity_worker r workers s now).1 ≡ none
    → All (λ v. is_routed (route r s now) v ≡ false) workers
unfolding affinity_worker
affinity_none r workers s now v h =
    let bound = (Sessions.get_session r s now).1 in
    let answer = (get_session_lem r s s now now v (omega arith)).0 in
    subst (λ o. All (λ u. is_routed o u ≡ false) workers) answer
      (elim (Option-cases (truthy bound)) [
        | inl e ↦ truthy-none bound workers e
        | inr (id, e) ↦ elim (Option-cases (find_online id workers)) [
          | inl f ↦
              subst (λ o. All (λ u. is_routed o u ≡ false) workers)
                (sym (truthy_lem bound {id = id} e)) (find_online-none id workers f)
          | inr (u, f) ↦ absurd (ground arith)
        ]
      ])

affinity_some :
    (r : SessionRegistry) (workers : List WorkerInfo) (s : String) (now : ℕ) (w : WorkerInfo)
    → IsValid r
    → (affinity_worker r workers s now).1 ≡ some w
    → In w workers × (is_online w ≡ true) × (route r s now ≡ some w.worker_id)
unfolding affinity_worker
affinity_some r workers s now w v h =
    let answer = (get_session_lem r s s now now v (omega arith)).0 in
    elim (Option-cases (truthy (Sessions.get_session r s now).1)) [
      | inl e ↦ absurd (ground arith)
      | inr (id, e) ↦ elim (Option-cases (find_online id workers)) [
        | inl f ↦ absurd (ground arith)
        | inr (u, f) ↦
            let found = find_online_lem id workers {w = u} f in
            let same : u ≡ w = ground arith in
            let bound = truthy_lem (Sessions.get_session r s now).1 {id = id} e in
            (
              subst (λ x. In x workers) same (find_online-In id workers {w = u} f),
              ap is_online (sym same) ∙ found.1,
              sym answer
                  ∙ bound
                  ∙ ap some (sym found.0 ∙ ap (λ (x : WorkerInfo). x.worker_id) same),
            )
      ]
    ]

-- What a request of a session gives, and what the balancer keeps of it.
pub record Bound (b' : SmartLoadBalancer) (registry : SessionRegistry) (workers : List WorkerInfo)
    (s : String) (now : ℕ) (w : WorkerInfo) : Type 0 where
  pub registered : In w workers
  pub online : is_online w ≡ true
  pub sticky :
      (route registry s now ≡ some w.worker_id)
      ⊎ All (λ v. is_routed (route registry s now) v ≡ false) workers
  pub registry' : SessionRegistry
  pub kept : b'.session_registry ≡ some registry'
  pub routed : route registry' s now ≡ some w.worker_id

-- A worker that is given to a request of a session is registered and online. It has the id that
-- the session was routed to, whatever the model and the loads, unless that id is empty or no online
-- worker has it; and after the request the session is routed to the worker given, also where it
-- replaces another.
pub select_worker-Bound :
    (b : SmartLoadBalancer) (registry : SessionRegistry) (workers : List WorkerInfo)
    (model_id s : String) (now : ℕ) (w : WorkerInfo)
    → b.session_registry ≡ some registry
    → IsValid registry
    → (s == "") ≡ false
    → 0 < registry.config.ttl_ms
    → (select_worker b workers model_id (some s) now).1 ≡ selected w
    → Bound (select_worker b workers model_id (some s) now).0 registry workers s now w
unfolding select_worker truthy
select_worker-Bound b registry workers model_id s now w e v n p h =
    let registry' = (affinity_worker registry workers s now).0 in
    let b' = record b { session_registry = some registry' } in
    elim (Option-cases (affinity_worker registry workers s now).1) [
      | inl q ↦
          let fresh : select_worker b workers model_id (some s) now
              ≡ select_fresh b' workers model_id (some s) now =
            ground arith in
          let given = ap (λ r. r.1) (sym fresh) ∙ h in
          let sound = select_fresh_sound b' workers model_id (some s) now w given in
          record {
            registered = sound.0;
            online = sound.1;
            sticky = inr (affinity_none registry workers s now v q);
            registry' = Sessions.set_session registry' s w.worker_id now;
            kept =
                ap (λ r. r.0.session_registry) fresh
                ∙ select_fresh-binds b' workers model_id s registry' now w refl n given;
            routed =
                set_session-route registry' s w.worker_id now now
                  (omega (arith, ap (λ c. c.ttl_ms) (affinity_registry registry workers s now)));
          }
      | inr (u, q) ↦
          let same : u ≡ w = ground arith in
          let some_w = q ∙ ap some same in
          let (found, on, routed) = affinity_some registry workers s now w v some_w in
          record {
            registered = found;
            online = on;
            sticky = inl routed;
            registry' = registry';
            kept = ground arith;
            routed = affinity-routed registry workers s now w v some_w;
          }
    ]
