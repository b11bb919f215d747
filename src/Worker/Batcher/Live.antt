-- ===== src/Worker/Batcher/Live.antt =====
-- The timer, the immediates and the batches of src/distributed/worker/continuous-batcher.ts.
use mlx_serving.Prelude.{
  ℕ, zero, suc, ◌+◌, ◌-◌, ◌*◌, ◌≤◌, ◌≡◌, refl, sym, ap, ◌∙◌, subst, min, Bool, true, ◌||◌, none,
  some, List, [], ◌∷◌, ◌++◌, if◌then◌else◌, if_true, if_false, if_both, leb, ltb, length, arith,
  is_some, Option-cases, Bool-cases, inl, inr,
}
use mlx_serving.Worker.Batcher.{
  BatcherConfig, ContinuousBatcher, take, drop, new, process_batch, enqueue, finish, complete, fail,
  clear, fire_timer, fire_immediate, Event, enqueues, completes, fails, clears, timer_fires,
  immediate_fires, step, run,
}

length-take : {X : Type 0} (n : ℕ) (xs : List X) → length (take n xs) ≡ min n (length xs)
unfolding take
length-take zero xs = omega arith
length-take (suc n) [] = omega arith
length-take (suc n) (x ∷ xs) = omega (arith, length-take n xs)

length-drop : {X : Type 0} (n : ℕ) (xs : List X) → length (drop n xs) ≡ length xs - n
unfolding drop
length-drop zero xs = omega arith
length-drop (suc n) [] = omega arith
length-drop (suc n) (x ∷ xs) = omega (arith, length-drop n xs)

module _ {Q A : Type 0} where
  -- Someone will look at the queue.
  abbrev pub is_attended : ContinuousBatcher Q A → Bool
  is_attended b = b.batch_timer || is_some b.processing || ltb 0 b.immediates

  abbrev pub executing : ContinuousBatcher Q A → ℕ
  executing b = elim b.processing [ none ↦ 0 | some batch ↦ length batch ]

  -- Requests wait only where someone will look at them, and a batch is as large as allowed at most.
  pub record IsLive (most : ℕ) (b : ContinuousBatcher Q A) : Type 0 where
    pub same_limit : b.config.max_batch_size ≡ most
    pub attended : is_attended b || leb (length b.queue) 0 ≡ true
    pub bounded : executing b ≤ most

  process_batch-IsLive :
      (most : ℕ) (b : ContinuousBatcher Q A)
      → b.config.max_batch_size ≡ most
      → executing b ≤ most
      → IsLive most (process_batch b)
  unfolding process_batch
  process_batch-IsLive most b c l =
      elim (Bool-cases (is_some b.processing || leb (length b.queue) 0)) [
        | inl h ↦
            subst (IsLive most) (sym (if_true _ _ h))
              (record { same_limit = c; attended = ground (arith, h); bounded = l })
        | inr h ↦ subst (IsLive most) (sym (if_false _ _ h)) (record {
          same_limit = c;
          attended = refl;
          bounded =
              omega (arith, c, length-take (min (length b.queue) b.config.max_batch_size) b.queue);
        })
      ]

  enqueue-IsLive :
      (most : ℕ) (b : ContinuousBatcher Q A) (q : Q) → IsLive most b → IsLive most (enqueue b q)
  unfolding enqueue
  enqueue-IsLive most b q l =
      let b' = record b { queue = b.queue ++ (b.created, q) ∷ []; created = b.created + 1 } in
      elim (Bool-cases (leb b.config.max_batch_size (length b'.queue))) [
        | inl h ↦
            subst (IsLive most) (sym (if_true _ _ h))
              (process_batch-IsLive most b' l.same_limit l.bounded)
        | inr h ↦ elim (Bool-cases b.batch_timer) [
          | inl t ↦ subst (IsLive most) (sym (if_false _ _ h ∙ if_true _ _ t)) (record {
            same_limit = l.same_limit;
            attended = ground (arith, t);
            bounded = l.bounded;
          })
          | inr t ↦
              subst (IsLive most) (sym (if_false _ _ h ∙ if_false _ _ t))
                (record { same_limit = l.same_limit; attended = refl; bounded = l.bounded })
        ]
      ]

  finish-IsLive :
      (most : ℕ) (b : ContinuousBatcher Q A)
      → b.config.max_batch_size ≡ most
      → IsLive most (finish b)
  unfolding finish
  finish-IsLive most b c = record { same_limit = c; attended = ground arith; bounded = omega arith }

  complete-IsLive :
      (most : ℕ) (b : ContinuousBatcher Q A) (results : List A)
      → IsLive most b
      → IsLive most (complete b results)
  unfolding complete
  complete-IsLive most b results l = elim (Option-cases b.processing) [
    | inl e ↦ rw (e, complete) l
    | inr (batch, e) ↦ rw (e, complete) (finish-IsLive most _ l.same_limit)
  ]

  fail-IsLive : (most : ℕ) (b : ContinuousBatcher Q A) → IsLive most b → IsLive most (fail b)
  unfolding fail
  fail-IsLive most b l = elim (Option-cases b.processing) [
    | inl e ↦ rw (e, fail) l
    | inr (batch, e) ↦ rw (e, fail) (finish-IsLive most _ l.same_limit)
  ]

  step-IsLive :
      (most : ℕ) (b : ContinuousBatcher Q A) (e : Event Q A)
      → IsLive most b
      → IsLive most (step b e)
  unfolding step clear fire_timer fire_immediate
  step-IsLive most b (enqueues q) l = enqueue-IsLive most b q l
  step-IsLive most b (completes results) l = complete-IsLive most b results l
  step-IsLive most b fails l = fail-IsLive most b l
  step-IsLive most b clears l = record {
    same_limit = l.same_limit;
    attended = ground arith;
    bounded = l.bounded;
  }
  step-IsLive most b timer_fires l =
      if_both (IsLive most) b.batch_timer (process_batch-IsLive most b l.same_limit l.bounded) l
  step-IsLive most b immediate_fires l =
      if_both (IsLive most) (ltb 0 b.immediates)
        (process_batch-IsLive most (record b { immediates = b.immediates - 1 }) l.same_limit
          l.bounded)
        l

  run_from-IsLive :
      (most : ℕ) (b : ContinuousBatcher Q A) (events : List (Event Q A))
      → IsLive most b
      → IsLive most (run b events)
  unfolding run
  run_from-IsLive most b [] l = l
  run_from-IsLive most b (e ∷ events) l =
      run_from-IsLive most (step b e) events (step-IsLive most b e l)

  -- Whatever happens to a new batcher: if a request waits, the timer is set, or a batch is being
  -- executed, or an immediate will look at the queue; and a batch is never larger than
  -- maxBatchSize.
  pub run_batcher-IsLive :
      (config : BatcherConfig) (events : List (Event Q A))
      → IsLive config.max_batch_size (run (new config) events)
  unfolding new
  run_batcher-IsLive config events =
      run_from-IsLive config.max_batch_size (new config) events
        (record { same_limit = refl; attended = refl; bounded = omega arith })

  length-process_batch :
      (b : ContinuousBatcher Q A)
      → length (process_batch b).queue ≡ (
          if is_some b.processing then length b.queue else length b.queue - b.config.max_batch_size)
  unfolding process_batch
  length-process_batch b =
      ground (arith, length-drop (min (length b.queue) b.config.max_batch_size) b.queue)

  processing-process_batch :
      (b : ContinuousBatcher Q A)
      → is_some (process_batch b).processing ≡ is_some b.processing || ltb 0 (length b.queue)
  unfolding process_batch
  processing-process_batch b = ground arith

  process_batch-same :
      (b : ContinuousBatcher Q A)
      → ((process_batch b).config ≡ b.config) × ((process_batch b).immediates ≡ b.immediates)
  unfolding process_batch
  process_batch-same b =
      if_both (λ (x : ContinuousBatcher Q A). (x.config ≡ b.config) × (x.immediates ≡ b.immediates))
        (is_some b.processing || leb (length b.queue) 0) (refl, refl) (refl, refl)

  queue-complete :
      (b : ContinuousBatcher Q A) (results : List A)
      → ((complete b results).queue ≡ b.queue) × ((complete b results).processing ≡ none)
  unfolding complete finish
  queue-complete b results = elim (Option-cases b.processing) [
    | inl e ↦ (rw (e, complete) refl, rw (e, complete) e)
    | inr (batch, e) ↦ (rw (e, complete) refl, rw (e, complete) refl)
  ]

  -- The timer and the immediates that are set fire, and the executor returns.
  unfoldable pub rounds : List (List A) → List (Event Q A)
  rounds [] = []
  rounds (results ∷ more) = timer_fires ∷ immediate_fires ∷ completes results ∷ rounds more

  length-fire_immediate :
      (b : ContinuousBatcher Q A)
      → length (fire_immediate b).queue ≡ (
          if is_some b.processing
          then length b.queue
          else if ltb 0 b.immediates
          then length b.queue - b.config.max_batch_size
          else length b.queue)
  unfolding fire_immediate
  length-fire_immediate b = elim (Bool-cases (ltb 0 b.immediates)) [
    | inl h ↦
        let next = record b { immediates = b.immediates - 1 } in
        let fired =
          ap (λ (x : ContinuousBatcher Q A). length x.queue) (if_true (process_batch next) b h) in
        ground (arith, fired, length-process_batch next, h)
    | inr h ↦
        let fired =
          ap (λ (x : ContinuousBatcher Q A). length x.queue)
            (if_false (process_batch (record b { immediates = b.immediates - 1 })) b h) in
        ground (arith, fired, h)
  ]

  woken_lem :
      (most : ℕ) (b : ContinuousBatcher Q A)
      → IsLive most b
      → b.processing ≡ none
      → length (fire_immediate (fire_timer b)).queue ≡ length b.queue - most
  unfolding fire_timer
  woken_lem most b l p = elim (Bool-cases b.batch_timer) [
    | inl t ↦
        ap (λ (x : ContinuousBatcher Q A). length (fire_immediate x).queue)
          (if_true (process_batch b) b t)
        ∙ ground (
          arith,
          length-fire_immediate (process_batch b),
          length-process_batch b,
          processing-process_batch b,
          ap is_some p,
          ap (λ (g : BatcherConfig). g.max_batch_size) (process_batch-same b).0,
          l.same_limit,
        )
    | inr t ↦
        ap (λ (x : ContinuousBatcher Q A). length (fire_immediate x).queue)
          (if_false (process_batch b) b t)
        ∙ ground (arith, length-fire_immediate b, ap is_some p, l.attended, l.same_limit, t)
  ]

  -- From a batcher that is live and executes no batch, each round in which what is set fires and the
  -- executor then returns, with any results, takes maxBatchSize requests off the queue, or as many
  -- as wait: with no new requests, enough rounds empty it.
  pub run-rounds :
      (most : ℕ) (b : ContinuousBatcher Q A) (returns : List (List A))
      → IsLive most b
      → b.processing ≡ none
      → length (run b (rounds returns)).queue ≡ length b.queue - length returns * most
  unfolding run rounds step
  run-rounds most b [] l p = omega arith
  run-rounds most b (results ∷ returns) l p =
      let fired = fire_immediate (fire_timer b) in
      let after = complete fired results in
      let q = queue-complete fired results in
      let live = complete-IsLive most fired results (
        unfold step in
        step-IsLive most (fire_timer b) immediate_fires (step-IsLive most b timer_fires l)) in
      let rest = run-rounds most after returns live q.1 in
      omega (arith, rest, ap (λ x. length x) q.0, woken_lem most b l p)
