-- ===== src/Controller/Balancer/Select.antt =====
-- Which worker a selection without session affinity takes, and when it fails.
use mlx_serving.Prelude.{
  ℕ, zero, suc, ◌%◌, ◌≤◌, ◌<◌, ◌≡◌, ◌≢◌, refl, sym, ap, ◌∙◌, ◌⊎◌, inl, inr, Bool, true, Option,
  none, some, List, [], ◌∷◌, String, eqb, eqb_iff, if◌then◌else◌, arith, Bool-cases, filter_b,
  length, All, List-cases, get_elem?, subst,
}
use native.Mathlib.Nat.{mod-lt}
use mlx_serving.Controller.Workers.{WorkerInfo, is_online}
use mlx_serving.Controller.Balancer.{
  SmartLoadBalancer, Selection, selected, failed, crashed, no_workers_available, worker_unavailable,
  load, has_model, take_turn, select_fresh,
}
use mlx_serving.Controller.Balancer.Ties.{
  ties, min_load, min_load-le, ties_pos, least_loaded_workers-ties, eligible_workers_lem,
}

-- The workers that can serve the model now.
abbrev pub candidates : String → List WorkerInfo → List WorkerInfo
candidates model_id workers = filter_b (has_model model_id) (filter_b is_online workers)

abbrev pub In : WorkerInfo → List WorkerInfo → Type 0
In w [] = ⊥
In w (v ∷ vs) = (w ≡ v) ⊎ In w vs

abbrev chosen : Option WorkerInfo → Selection
chosen none = crashed
chosen (some w) = selected w

-- The outcome of a selection, from the candidates and the round-robin index alone.
abbrev pub outcome : ℕ → List WorkerInfo → List WorkerInfo → Selection
outcome index online [] =
    if eqb (length online) 0 then failed no_workers_available else failed worker_unavailable
outcome index online (c ∷ cs) = chosen (get_elem? (ties (c ∷ cs)) (index % length (ties (c ∷ cs))))

online_pos :
    (model_id : String) (online : List WorkerInfo) {c : WorkerInfo} {cs : List WorkerInfo}
    → filter_b (has_model model_id) online ≡ c ∷ cs
    → 0 < length online
online_pos model_id [] h = cc
online_pos model_id (w ∷ ws) h = omega arith

take_turn-chosen :
    (b : SmartLoadBalancer) (l : List WorkerInfo) (s : Option String) (now : ℕ)
    → (take_turn b l s now).1 ≡ chosen (get_elem? l (b.current_index % length l))
unfolding take_turn
take_turn-chosen b l s now = ground arith

-- With no candidate a selection fails, by what is missing; with candidates it takes its turn
-- among the least loaded of them.
pub select_fresh_cases :
    (b : SmartLoadBalancer) (workers : List WorkerInfo) (model_id : String) (s : Option String)
    (now : ℕ)
    → select_fresh b workers model_id s now ≡ (elim (candidates model_id workers) [
      | [] ↦ (
        b,
        if eqb (length (filter_b is_online workers)) 0
            then failed no_workers_available
            else failed worker_unavailable,
      )
      | c ∷ cs ↦ take_turn b (ties (c ∷ cs)) s now
    ])
unfolding select_fresh
select_fresh_cases b workers model_id s now = elim (List-cases (candidates model_id workers)) [
  | inl e ↦ ground arith
  | inr (c, cs, e) ↦ ground (
    arith,
    online_pos model_id (filter_b is_online workers) {c = c} {cs = cs},
    eligible_workers_lem (candidates model_id workers),
    least_loaded_workers-ties (candidates model_id workers),
  )
]

select_fresh-outcome :
    (b : SmartLoadBalancer) (workers : List WorkerInfo) (model_id : String) (s : Option String)
    (now : ℕ)
    → (select_fresh b workers model_id s now).1
      ≡ outcome b.current_index (filter_b is_online workers) (candidates model_id workers)
select_fresh-outcome b workers model_id s now = elim (List-cases (candidates model_id workers)) [
  | inl e ↦ ground (arith, select_fresh_cases b workers model_id s now)
  | inr (c, cs, e) ↦
      ground (
        arith,
        select_fresh_cases b workers model_id s now,
        take_turn-chosen b (ties (c ∷ cs)) s now,
      )
]

In-get_elem? : (l : List WorkerInfo) (i : ℕ) {w : WorkerInfo} → get_elem? l i ≡ some w → In w l
In-get_elem? [] i h = cc
In-get_elem? (v ∷ vs) zero h = inl (cc)
In-get_elem? (v ∷ vs) (suc i) h = inr (In-get_elem? vs i h)

pub In-filter_b :
    (p : WorkerInfo → Bool) (l : List WorkerInfo) {w : WorkerInfo}
    → In w (filter_b p l)
    → In w l × (p w ≡ true)
In-filter_b p [] h = absurd h
In-filter_b p (v ∷ vs) {w} h = elim (Bool-cases (p v)) [
  | inl e ↦
      let k : (w ≡ v) ⊎ In w (filter_b p vs) = rw e at h in
      elim k [
        | inl q ↦ (inl q, ap p q ∙ e)
        | inr m ↦ let (m', t) = In-filter_b p vs m in (inr m', t)
      ]
  | inr e ↦
      let k : In w (filter_b p vs) = rw e at h in let (m', t) = In-filter_b p vs k in (inr m', t)
]

get_elem?-in_range :
    {A : Type 0} (l : List A) (i : ℕ) → i < length l → (a : A) × (get_elem? l i ≡ some a)
get_elem?-in_range [] i h = elim h [ ]
get_elem?-in_range (x ∷ xs) zero h = (x, refl)
get_elem?-in_range (x ∷ xs) (suc i) h = get_elem?-in_range xs i (omega arith)

select_fresh-In-ties :
    (b : SmartLoadBalancer) (workers : List WorkerInfo) (model_id : String) (s : Option String)
    (now : ℕ) (w : WorkerInfo)
    → (select_fresh b workers model_id s now).1 ≡ selected w
    → In w (ties (candidates model_id workers))
select_fresh-In-ties b workers model_id s now w h =
    elim (List-cases (candidates model_id workers)) [
      | inl e ↦ absurd (ground (arith, select_fresh-outcome b workers model_id s now))
      | inr (c, cs, e) ↦
          subst (λ l. In w (ties l)) (sym e)
            (In-get_elem? (ties (c ∷ cs)) (b.current_index % length (ties (c ∷ cs)))
              (ground (arith, select_fresh-outcome b workers model_id s now)))
    ]

All-load :
    (n m : ℕ) (vs : List WorkerInfo) → n ≡ m → All (λ v. m ≤ load v) vs → All (λ v. n ≤ load v) vs
All-load n m vs e h = subst (λ t. All (λ v. t ≤ load v) vs) (sym e) h

-- A worker that is selected without session affinity is one of the workers given, is online, has
-- the model, and no other online worker that has the model is less loaded.
pub select_fresh_sound :
    (b : SmartLoadBalancer) (workers : List WorkerInfo) (model_id : String) (s : Option String)
    (now : ℕ) (w : WorkerInfo)
    → (select_fresh b workers model_id s now).1 ≡ selected w
    → In w workers
      × (is_online w ≡ true)
      × (has_model model_id w ≡ true)
      × All (λ v. load w ≤ load v) (candidates model_id workers)
select_fresh_sound b workers model_id s now w h =
    let l = candidates model_id workers in
    let (m, least) =
      In-filter_b (λ v. eqb (load v) (min_load l)) l
        (select_fresh-In-ties b workers model_id s now w h) in
    let (on, able) = In-filter_b (has_model model_id) (filter_b is_online workers) m in
    let (given, up) = In-filter_b is_online workers on in
    (given, up, able, All-load (load w) (min_load l) l ((eqb_iff _ _).0 least) (min_load-le l))

-- A selection without session affinity never crashes: it selects a worker if some online worker
-- has the model; else it fails, with `NO_WORKERS_AVAILABLE` if no worker is online, and with
-- `WORKER_UNAVAILABLE` if one is.
pub select_fresh-total :
    (b : SmartLoadBalancer) (workers : List WorkerInfo) (model_id : String) (s : Option String)
    (now : ℕ)
    → ((candidates model_id workers ≢ [])
        × ((w : WorkerInfo) × ((select_fresh b workers model_id s now).1 ≡ selected w)))
      ⊎ ((candidates model_id workers ≡ [])
          × ((select_fresh b workers model_id s now).1
              ≡ failed (
                  if eqb (length (filter_b is_online workers)) 0
                  then no_workers_available
                  else worker_unavailable)))
select_fresh-total b workers model_id s now = elim (List-cases (candidates model_id workers)) [
  | inl e ↦ inr (e, ground (arith, select_fresh-outcome b workers model_id s now))
  | inr (c, cs, e) ↦
      let (w, got) =
        get_elem?-in_range (ties (c ∷ cs)) (b.current_index % length (ties (c ∷ cs)))
          (mod-lt b.current_index (ties_pos c cs)) in
      inl (ground arith, (w, ground (arith, select_fresh-outcome b workers model_id s now)))
]
