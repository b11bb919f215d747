-- ===== src/Scheduling/Priority/Shortest.antt =====
-- Shortest job first in src/scheduling/PriorityScheduler.ts.
use mlx_serving.Prelude.{
  ℕ, ◌≤◌, ◌≡◌, ◌⊎◌, refl, sym, ap, ◌∙◌, subst, true, none, some, List, [], ◌∷◌, ◌++◌, nat_eq,
  if◌then◌else◌, if_true, if_false, ltb, All, arith, Bool-cases, Option-cases, List-cases, inl, inr,
}
use mlx_serving.JsMap.{JsMap, get}
use mlx_serving.Scheduling.Priority.{
  SchedulableRequest, PriorityScheduler, least, estimate_duration, pick, select_next_request,
}

module _ {T : Type 0} where
  -- The request is chosen from the first of the queues that is not empty.
  pub record Picked (c : SchedulableRequest T → List (SchedulableRequest T) → SchedulableRequest T)
      (ps : List ℕ) (queues : JsMap ℕ (List (SchedulableRequest T))) (r : SchedulableRequest T)
      : Type 0 where
    pub before : List ℕ
    pub priority : ℕ
    pub after : List ℕ
    pub first : SchedulableRequest T
    pub others : List (SchedulableRequest T)
    pub order : ps ≡ before ++ priority ∷ after
    pub empty_before : All (λ p. (get p queues ≡ none) ⊎ (get p queues ≡ some [])) before
    pub here : get priority queues ≡ some (first ∷ others)
    pub chosen : r ≡ c first others

  skip-Picked :
      (c : SchedulableRequest T → List (SchedulableRequest T) → SchedulableRequest T) (p : ℕ)
      (ps : List ℕ) (queues : JsMap ℕ (List (SchedulableRequest T))) (r : SchedulableRequest T)
      → (get p queues ≡ none) ⊎ (get p queues ≡ some [])
      → Picked c ps queues r
      → Picked c (p ∷ ps) queues r
  skip-Picked c p ps queues r e k = record {
    before = p ∷ k.before;
    priority = k.priority;
    after = k.after;
    first = k.first;
    others = k.others;
    order = ap (λ l. p ∷ l) k.order;
    empty_before = (e, k.empty_before);
    here = k.here;
    chosen = k.chosen;
  }

  pick-Picked :
      (c : SchedulableRequest T → List (SchedulableRequest T) → SchedulableRequest T) (ps : List ℕ)
      (queues : JsMap ℕ (List (SchedulableRequest T))) (r : SchedulableRequest T)
      → pick c ps queues ≡ some r
      → Picked c ps queues r
  unfolding pick
  pick-Picked c [] queues r e = absurd (cc)
  pick-Picked c (p ∷ ps) queues r e = elim (Option-cases (get p queues)) [
    | inl g ↦ skip-Picked c p ps queues r (inl g) (pick-Picked c ps queues r (ground (arith, g)))
    | inr (queue, g) ↦ elim (List-cases queue) [
      | inl n ↦
          skip-Picked c p ps queues r (inr (g ∙ ap (λ q. some q) n))
            (pick-Picked c ps queues r (ground (arith, g, n)))
      | inr (x, xs, n) ↦ record {
        before = [];
        priority = p;
        after = ps;
        first = x;
        others = xs;
        order = refl;
        empty_before = tt;
        here = g ∙ ap (λ q. some q) n;
        chosen = ground (arith, g, n);
      }
    ]
  ]

  next_le :
      (f : SchedulableRequest T → ℕ) (r best : SchedulableRequest T)
      → f (if ltb (f r) (f best) then r else best) ≤ f best
  next_le f r best = elim (Bool-cases (ltb (f r) (f best))) [
    | inl h ↦ subst (λ x. f x ≤ f best) (sym (if_true r best h)) (ground (arith, h))
    | inr h ↦ subst (λ x. f x ≤ f best) (sym (if_false r best h)) (omega arith)
  ]

  next_le_new :
      (f : SchedulableRequest T → ℕ) (r best : SchedulableRequest T)
      → f (if ltb (f r) (f best) then r else best) ≤ f r
  next_le_new f r best = elim (Bool-cases (ltb (f r) (f best))) [
    | inl h ↦ subst (λ x. f x ≤ f r) (sym (if_true r best h)) (omega arith)
    | inr h ↦ subst (λ x. f x ≤ f r) (sym (if_false r best h)) (ground (arith, h))
  ]

  least-best :
      (f : SchedulableRequest T → ℕ) (best : SchedulableRequest T)
      (queue : List (SchedulableRequest T))
      → f (least f best queue) ≤ f best
  unfolding least
  least-best f best [] = omega arith
  least-best f best (r ∷ queue) =
      omega (arith, least-best f (if ltb (f r) (f best) then r else best) queue, next_le f r best)

  least-All_le :
      (f : SchedulableRequest T → ℕ) (best : SchedulableRequest T)
      (queue : List (SchedulableRequest T))
      → All (λ x. f (least f best queue) ≤ f x) (best ∷ queue)
  unfolding least
  least-All_le f best [] = (omega arith, tt)
  least-All_le f best (r ∷ queue) =
      let next = if ltb (f r) (f best) then r else best in
      let b = least-best f next queue in
      let rest = least-All_le f next queue in
      let le_best : f next ≤ f best = next_le f r best in
      let le_r : f next ≤ f r = next_le_new f r best in
      (omega (arith, b, le_best), (omega (arith, b, le_r), rest.1))

  -- With shortest job first, the request that is selected stands in the first queue, in the order of
  -- the priorities, that is not empty, and no request of that queue has a smaller estimate.
  pub select_next_request-shortest :
      (s : PriorityScheduler T) (r : SchedulableRequest T)
      → s.config.shortest_job_first ≡ true
      → select_next_request s ≡ some r
      → (k : Picked (least estimate_duration) (0 ∷ 1 ∷ 2 ∷ 3 ∷ 4 ∷ []) s.queues r) × All
          (λ x. estimate_duration r ≤ estimate_duration x)
          (k.first ∷ k.others)
  unfolding select_next_request
  select_next_request-shortest s r j e =
      let k = pick-Picked (least estimate_duration) (0 ∷ 1 ∷ 2 ∷ 3 ∷ 4 ∷ []) s.queues r (
        ap (λ c. pick c (0 ∷ 1 ∷ 2 ∷ 3 ∷ 4 ∷ []) s.queues)
          (sym (if_true (least estimate_duration) (λ x xs. x) j))
        ∙ e) in
      (
        k,
        subst (λ y. All (λ x. estimate_duration y ≤ estimate_duration x) (k.first ∷ k.others))
            (sym k.chosen) (least-All_le estimate_duration k.first k.others),
      )
