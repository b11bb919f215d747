-- ===== src/Scheduling/Priority/Aging.antt =====
-- `applyAging` of src/scheduling/PriorityScheduler.ts. It removes a request from a queue while a
-- `for ... of` walks through the queue, so that the walk skips the request after it.
use mlx_serving.Prelude.{
  ℕ, ◌+◌, ◌-◌, ◌*◌, ◌≡◌, refl, sym, ap, ◌∙◌, subst, Bool, true, false, not, ◌&&◌, none, some, List,
  [], ◌∷◌, ◌++◌, ◌==◌, nat_eq, if◌then◌else◌, if_true, if_false, if_both, leb, is_some, length,
  length-append, All, arith, Bool-cases, Option-cases, inl, inr,
}
use mlx_serving.JsMap.{JsMap, get, put, includes, keys, total, total-put, get-put_ne}
use mlx_serving.Scheduling.Priority.{SchedulableRequest, PriorityScheduler, get_total_queue_size}
use mlx_serving.Scheduling.Priority.Select.{IsPlaced}
use mlx_serving.Scheduling.Priority.Drain.{put-IsPlaced}

module _ {T : Type 0} where
  unfoldable pub is_aged : ℕ → ℕ → SchedulableRequest T → Bool
  is_aged interval now r = leb (r.metadata.queued_at + interval * (r.metadata.aging_bumps + 1)) now

  unfoldable pub promote : ℕ → SchedulableRequest T → SchedulableRequest T
  promote p r = record r {
    metadata = record (r.metadata) { priority = p - 1; aging_bumps = r.metadata.aging_bumps + 1 };
  }

  -- The walk through one queue: what stays in it, and what is promoted. `true` is for a request that
  -- the walk skips.
  unfoldable pub age_queue :
      ℕ
      → ℕ
      → ℕ
      → Bool
      → List (SchedulableRequest T)
      → List (SchedulableRequest T) × List (SchedulableRequest T)
  age_queue interval now p skip [] = ([], [])
  age_queue interval now p skip (r ∷ queue) =
      let (kept, promoted) = age_queue interval now p false queue in
      let (kept', promoted') = age_queue interval now p true queue in
      if not skip && is_aged interval now r
      then (kept', promote p r ∷ promoted')
      else (r ∷ kept, promoted)

  -- One round of the loop over the queues; promoted requests go to the end of the next queue.
  unfoldable pub age_priority :
      ℕ → ℕ → ℕ → JsMap ℕ (List (SchedulableRequest T)) → JsMap ℕ (List (SchedulableRequest T))
  age_priority interval now p queues = elim (get p queues) [
    | none ↦ queues
    | some queue ↦
        let (kept, promoted) = age_queue interval now p false queue in
        let rest = put p kept queues in
        if p == 0 then queues else elim (get (p - 1) rest) [
          | none ↦ rest
          | some next ↦ put (p - 1) (next ++ promoted) rest
        ]
  ]

  unfoldable pub age_all :
      ℕ → ℕ → List ℕ → JsMap ℕ (List (SchedulableRequest T)) → JsMap ℕ (List (SchedulableRequest T))
  age_all interval now [] queues = queues
  age_all interval now (p ∷ ps) queues =
      age_all interval now ps (age_priority interval now p queues)

  unfoldable pub apply_aging : PriorityScheduler T → ℕ → PriorityScheduler T
  apply_aging s now = record s {
    queues = age_all s.config.aging_interval_ms now (keys s.queues) s.queues;
  }

  -- What stays keeps its priority, and what is promoted has the next one.
  record Aged (p : ℕ) (queue : List (SchedulableRequest T))
      (r : List (SchedulableRequest T) × List (SchedulableRequest T)) : Type 0 where
    kept_placed : All (λ x. x.metadata.priority ≡ p) r.0
    promoted_placed : All (λ x. x.metadata.priority ≡ p - 1) r.1
    all_there : length r.0 + length r.1 ≡ length queue

  age_queue-Aged :
      (interval now p : ℕ) (skip : Bool) (queue : List (SchedulableRequest T))
      → All (λ x. x.metadata.priority ≡ p) queue
      → Aged p queue (age_queue interval now p skip queue)
  unfolding age_queue promote
  age_queue-Aged interval now p skip [] a = record {
    kept_placed = tt;
    promoted_placed = tt;
    all_there = omega arith;
  }
  age_queue-Aged interval now p skip (r ∷ queue) a =
      let k = age_queue-Aged interval now p false queue a.1 in
      let s = age_queue-Aged interval now p true queue a.1 in
      if_both (Aged p (r ∷ queue)) (not skip && is_aged interval now r)
        (record {
          kept_placed = s.kept_placed;
          promoted_placed = (refl, s.promoted_placed);
          all_there = omega (arith, s.all_there);
        })
        (record {
          kept_placed = (a.0, k.kept_placed);
          promoted_placed = k.promoted_placed;
          all_there = omega (arith, k.all_there);
        })

  append-All :
      (P : SchedulableRequest T → Type 0) (xs ys : List (SchedulableRequest T))
      → All P xs
      → All P ys
      → All P (xs ++ ys)
  append-All P [] ys a b = b
  append-All P (x ∷ xs) ys a b = (a.0, append-All P xs ys a.1 b)

  -- Five queues, well placed, with so many requests.
  abbrev Holds : ℕ → JsMap ℕ (List (SchedulableRequest T)) → Type 0
  Holds n queues = IsPlaced queues × (total (λ q. length q) queues ≡ n)

  pub is_some-get :
      (k : ℕ) (m : JsMap ℕ (List (SchedulableRequest T))) → is_some (get k m) ≡ includes (keys m) k
  unfolding get
  is_some-get k [] = refl
  is_some-get k ((j, v) ∷ m) = ground (arith, is_some-get k m)

  next_queue :
      (p : ℕ) (queue : List (SchedulableRequest T)) (queues : JsMap ℕ (List (SchedulableRequest T)))
      → IsPlaced queues
      → (p == 0) ≡ false
      → get p queues ≡ some queue
      → (next : List (SchedulableRequest T)) × (get (p - 1) queues ≡ some next)
  next_queue p queue queues i z e = elim (Option-cases (get (p - 1) queues)) [
    | inr (next, g) ↦ (next, g)
    | inl g ↦
        let here = sym (is_some-get p queues) ∙ ap is_some e in
        let there = sym (is_some-get (p - 1) queues) ∙ ap is_some g in
        let five_here = ap (λ ps. includes ps p) (sym i.five) ∙ here in
        let five_there = ap (λ ps. includes ps (p - 1)) (sym i.five) ∙ there in
        absurd (ground (arith, five_here, five_there, z))
  ]

  age_priority-Holds :
      (interval now p n : ℕ) (queues : JsMap ℕ (List (SchedulableRequest T)))
      → Holds n queues
      → Holds n (age_priority interval now p queues)
  unfolding age_priority
  age_priority-Holds interval now p n queues (i, size) = elim (Option-cases (get p queues)) [
    | inl e ↦ rw (e, age_priority) (i, size)
    | inr (queue, e) ↦ elim (Bool-cases (p == 0)) [
      | inl z ↦ rw (e, age_priority) (subst (Holds n) (sym (if_true queues _ z)) (i, size))
      | inr z ↦
          let walked = age_queue interval now p false queue in
          let a = age_queue-Aged interval now p false queue (i.placed p queue e) in
          let rest = put p walked.0 queues in
          let placed = put-IsPlaced p queue walked.0 queues e a.kept_placed i in
          let less = total-put (λ q. length q) p queue walked.0 queues e in
          let apart : (p == p - 1) ≡ false = ground (arith, z) in
          let (next, g) = next_queue p queue queues i z e in
          let g' : get (p - 1) rest ≡ some next = get-put_ne (p - 1) p walked.0 queues apart ∙ g in
          let more = total-put (λ q. length q) (p - 1) next (next ++ walked.1) rest g' in
          let aged : IsPlaced (put (p - 1) (next ++ walked.1) rest) =
            put-IsPlaced (p - 1) next (next ++ walked.1) rest g'
              (append-All (λ x. x.metadata.priority ≡ p - 1) next walked.1
                (placed.placed (p - 1) next g') a.promoted_placed)
              placed in
          rw (e, age_priority)
            (subst (Holds n) (sym (if_false queues _ z)) (
              subst
                (λ o. Holds n (elim o as (λ x. JsMap ℕ (List (SchedulableRequest T))) [
                  | none ↦ rest
                  | some l ↦ put (p - 1) (l ++ walked.1) rest
                ]))
                (sym g')
                (aged, omega (arith, size, less, more, a.all_there, length-append next walked.1))))
    ]
  ]

  age_all-Holds :
      (interval now n : ℕ) (ps : List ℕ) (queues : JsMap ℕ (List (SchedulableRequest T)))
      → Holds n queues
      → Holds n (age_all interval now ps queues)
  unfolding age_all
  age_all-Holds interval now n [] queues h = h
  age_all-Holds interval now n (p ∷ ps) queues h =
      age_all-Holds interval now n ps (age_priority interval now p queues)
        (age_priority-Holds interval now p n queues h)

  -- Aging loses no request, and leaves each in the queue of its priority.
  pub apply_aging-IsPlaced :
      (s : PriorityScheduler T) (now : ℕ)
      → IsPlaced s.queues
      → IsPlaced (apply_aging s now).queues
        × (get_total_queue_size (apply_aging s now) ≡ get_total_queue_size s)
  unfolding apply_aging
  apply_aging-IsPlaced s now i =
      age_all-Holds s.config.aging_interval_ms now (get_total_queue_size s) (keys s.queues) s.queues
        (i, refl)
