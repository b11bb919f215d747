-- ===== src/Controller/Balancer/Ties.antt =====
-- The least loaded workers: those of minimal load, in the order in which they were given.
use mlx_serving.Prelude.{
  ℕ, suc, ◌≤◌, ◌<◌, ◌≡◌, refl, sym, ap, ◌∙◌, Bool, List, [], ◌∷◌, eqb, if◌then◌else◌, arith, inl,
  inr, filter_b, length, min, All, List-cases, subst,
}
use mlx_serving.Controller.Workers.{WorkerInfo}
use mlx_serving.Controller.Balancer.{
  load, insert_by_load, sort_by_load, is_capable, eligible_workers, least_loaded_workers,
}

-- The smallest load among the workers.
abbrev pub min_load : List WorkerInfo → ℕ
min_load [] = 0
min_load (w ∷ []) = load w
min_load (w ∷ v ∷ vs) = min (load w) (min_load (v ∷ vs))

-- The workers of smallest load, in their order.
abbrev pub ties : List WorkerInfo → List WorkerInfo
ties workers = filter_b (λ v. eqb (load v) (min_load workers)) workers

has_load : ℕ → WorkerInfo → Bool
has_load n v = eqb (load v) n

filter_b-insert_by_load :
    (n : ℕ) (w : WorkerInfo) (vs : List WorkerInfo)
    → filter_b (has_load n) (insert_by_load w vs) ≡ filter_b (has_load n) (w ∷ vs)
unfolding insert_by_load has_load
filter_b-insert_by_load n w [] = refl
filter_b-insert_by_load n w (v ∷ vs) = ground (arith, filter_b-insert_by_load n w vs)

filter_b-sort_by_load :
    (n : ℕ) (ws : List WorkerInfo)
    → filter_b (has_load n) (sort_by_load ws) ≡ filter_b (has_load n) ws
unfolding sort_by_load
filter_b-sort_by_load n [] = refl
filter_b-sort_by_load n (w ∷ ws) =
    filter_b-insert_by_load n w (sort_by_load ws)
    ∙ ap (λ l. if has_load n w then w ∷ l else l) (filter_b-sort_by_load n ws)

abbrev head_load : ℕ → List WorkerInfo → ℕ
head_load n [] = n
head_load n (w ∷ ws) = load w

head_load-insert_by_load :
    (n : ℕ) (w : WorkerInfo) (vs : List WorkerInfo)
    → head_load n (insert_by_load w vs) ≡ min (load w) (head_load (load w) vs)
unfolding insert_by_load
head_load-insert_by_load n w [] = omega arith
head_load-insert_by_load n w (v ∷ vs) = ground arith

head_load-sort_by_load :
    (n : ℕ) (x : WorkerInfo) (xs : List WorkerInfo)
    → head_load n (sort_by_load (x ∷ xs)) ≡ min_load (x ∷ xs)
unfolding sort_by_load
head_load-sort_by_load n x [] = refl
head_load-sort_by_load n x (y ∷ ys) =
    head_load-insert_by_load n x (insert_by_load y (sort_by_load ys))
    ∙ ap (min (load x)) (head_load-sort_by_load (load x) y ys)

length-sort_by_load : (ws : List WorkerInfo) → length (sort_by_load ws) ≡ length ws
unfolding sort_by_load
length-sort_by_load [] = refl
length-sort_by_load (w ∷ ws) =
    length-insert_by_load w (sort_by_load ws) ∙ ap suc (length-sort_by_load ws)
  where
    length-insert_by_load :
        (w : WorkerInfo) (vs : List WorkerInfo) → length (insert_by_load w vs) ≡ suc (length vs)
    length-insert_by_load w [] = refl
    length-insert_by_load w (v ∷ vs) = ground (arith, length-insert_by_load w vs)

-- Of workers in any order, those that the sort and the filter leave are those of minimal load,
-- in the order in which they came.
pub least_loaded_workers-ties :
    (eligible : List WorkerInfo) → least_loaded_workers eligible ≡ ties eligible
unfolding least_loaded_workers has_load
least_loaded_workers-ties [] = ground (arith, length-sort_by_load [])
least_loaded_workers-ties (x ∷ xs) = elim (List-cases (sort_by_load (x ∷ xs))) [
  | inl e ↦ absurd (omega (arith, length-sort_by_load (x ∷ xs), ap (λ l. length l) e))
  | inr (w, ws, e) ↦
      let same : load w ≡ min_load (x ∷ xs) =
        ap (head_load 0) (sym e) ∙ head_load-sort_by_load 0 x xs in
      rw (e, least_loaded_workers)
        (subst (λ n. filter_b (has_load n) (w ∷ ws) ≡ ties (x ∷ xs)) (sym same)
          (subst (λ l. filter_b (has_load (min_load (x ∷ xs))) l ≡ ties (x ∷ xs)) e
            (filter_b-sort_by_load (min_load (x ∷ xs)) (x ∷ xs))))
]

capable_all : (ws : List WorkerInfo) → filter_b is_capable ws ≡ ws
capable_all [] = refl
capable_all (w ∷ ws) = ground (arith, capable_all ws)

-- The second filter keeps every worker.
pub eligible_workers_lem : (skilled : List WorkerInfo) → eligible_workers skilled ≡ skilled
unfolding eligible_workers
eligible_workers_lem skilled = ground (arith, capable_all skilled)

ties_pos_at :
    (n : ℕ) (x : WorkerInfo) (xs : List WorkerInfo)
    → n ≡ min_load (x ∷ xs)
    → 0 < length (filter_b (has_load n) (x ∷ xs))
unfolding has_load
ties_pos_at n x [] h = ground arith
ties_pos_at n x (y ∷ ys) h = ground (arith, ties_pos_at n y ys)

-- There is a worker of minimal load.
pub ties_pos : (x : WorkerInfo) (xs : List WorkerInfo) → 0 < length (ties (x ∷ xs))
unfolding has_load
ties_pos x xs = ties_pos_at _ x xs refl

pub min_load-le : (ws : List WorkerInfo) → All (λ v. min_load ws ≤ load v) ws
min_load-le ws = min_load-le_at (min_load ws) ws (omega arith)
  where
    min_load-le_at : (n : ℕ) (vs : List WorkerInfo) → n ≤ min_load vs → All (λ v. n ≤ load v) vs
    min_load-le_at n [] h = tt
    min_load-le_at n (v ∷ []) h = (h, tt)
    min_load-le_at n (v ∷ u ∷ us) h = (omega arith, min_load-le_at n (u ∷ us) (omega arith))
