-- ===== src/Worker/Batcher/Ledger.antt =====
-- The promises of the continuous batcher of src/distributed/worker/continuous-batcher.ts.
use mlx_serving.Prelude.{
  ℕ, zero, suc, ◌+◌, ◌-◌, ◌≡◌, refl, ap, ◌∙◌, min, none, some, List, [], ◌∷◌, ◌++◌, if◌then◌else◌,
  if_both, leb, ltb, eqb, length, arith, Option-cases, inl, inr,
}
use mlx_serving.Worker.Batcher.{
  BatcherConfig, Outcome, batch_failed, shutting_down, ContinuousBatcher, take, drop, new,
  process_batch, enqueue, answers, reject_all, finish, complete, fail, clear, fire_timer,
  fire_immediate, Event, enqueues, completes, fails, clears, timer_fires, immediate_fires, step,
  run,
}

-- How often a promise is named in a list.
abbrev pub times : {X : Type 0} → ℕ → List (ℕ × X) → ℕ
times n [] = 0
times n ((m, x) ∷ xs) = (if eqb m n then 1 else 0) + times n xs

times-append :
    {X : Type 0} (n : ℕ) (xs ys : List (ℕ × X)) → times n (xs ++ ys) ≡ times n xs + times n ys
times-append n [] ys = omega arith
times-append n ((m, x) ∷ xs) ys = omega (arith, times-append n xs ys)

times-take-drop :
    {X : Type 0} (n k : ℕ) (xs : List (ℕ × X))
    → times n (take k xs) + times n (drop k xs) ≡ times n xs
unfolding take drop
times-take-drop n zero xs = omega arith
times-take-drop n (suc k) [] = omega arith
times-take-drop n (suc k) ((m, x) ∷ xs) = omega (arith, times-take-drop n k xs)

module _ {Q A : Type 0} where
  -- How often a promise is waiting, being executed or settled.
  unfoldable pub places : ℕ → ContinuousBatcher Q A → ℕ
  places n b =
      times n b.queue
      + (elim b.processing [ none ↦ 0 | some batch ↦ times n batch ])
      + times n b.settled

  times-answers :
      (n : ℕ) (batch : List (ℕ × Q)) (results : List A)
      → times n (answers batch results) ≡ times n batch
  unfolding answers
  times-answers n [] results = refl
  times-answers n ((m, q) ∷ batch) [] = omega (arith, times-answers n batch [])
  times-answers n ((m, q) ∷ batch) (a ∷ results) = omega (arith, times-answers n batch results)

  times-reject_all :
      (n : ℕ) (outcome : Outcome A) (items : List (ℕ × Q))
      → times n (reject_all outcome items) ≡ times n items
  unfolding reject_all
  times-reject_all n outcome [] = refl
  times-reject_all n outcome ((m, q) ∷ items) = omega (arith, times-reject_all n outcome items)

  places-process_batch :
      (n : ℕ) (b : ContinuousBatcher Q A) → places n (process_batch b) ≡ places n b
  unfolding places process_batch
  places-process_batch n b = elim (Option-cases b.processing) [
    | inl e ↦
        ground (arith, times-take-drop n (min (length b.queue) b.config.max_batch_size) b.queue)
    | inr (batch, e) ↦ ground arith
  ]

  -- Each promise that was made is at one place, and no other is anywhere.
  abbrev pub IsLedger : ContinuousBatcher Q A → Type 0
  IsLedger b = (n : ℕ) → places n b ≡ (if ltb n b.created then 1 else 0)

  created-process_batch : (b : ContinuousBatcher Q A) → (process_batch b).created ≡ b.created
  unfolding process_batch
  created-process_batch b = ground arith

  process_batch-IsLedger : (b : ContinuousBatcher Q A) → IsLedger b → IsLedger (process_batch b)
  process_batch-IsLedger b l n =
      ground (arith, l n, places-process_batch n b, created-process_batch b)

  enqueue-IsLedger : (b : ContinuousBatcher Q A) (q : Q) → IsLedger b → IsLedger (enqueue b q)
  unfolding enqueue places
  enqueue-IsLedger b q l =
      let b' = record b { queue = b.queue ++ (b.created, q) ∷ []; created = b.created + 1 } in
      let l' : IsLedger b' =
        λ n. ground (arith, l n, times-append n b.queue ((b.created, q) ∷ [])) in
      if_both IsLedger (leb b.config.max_batch_size (length b'.queue))
        (process_batch-IsLedger b' l') (if_both IsLedger b.batch_timer l' l')

  -- A batch ends: its promises are settled.
  settle-IsLedger :
      (b : ContinuousBatcher Q A) (batch : List (ℕ × Q)) (done : List (ℕ × Outcome A))
      (c : ContinuousBatcher Q A)
      → b.processing ≡ some batch
      → ((n : ℕ) → times n done ≡ times n batch)
      → c.queue ≡ b.queue
      → c.processing ≡ none
      → c.settled ≡ b.settled ++ done
      → c.created ≡ b.created
      → IsLedger b
      → IsLedger c
  unfolding places
  settle-IsLedger b batch done c e same q p s k l n =
      let count = ap (times n) s ∙ times-append n b.settled done in
      let queued = ap (times n) q in
      let before = ap (λ o. elim o as (λ x. ℕ) [ none ↦ 0 | some x ↦ times n x ]) e in
      let after = ap (λ o. elim o as (λ x. ℕ) [ none ↦ 0 | some x ↦ times n x ]) p in
      ground (arith, l n, same n, count, queued, before, after, k)

  complete-IsLedger :
      (b : ContinuousBatcher Q A) (results : List A) → IsLedger b → IsLedger (complete b results)
  unfolding complete finish
  complete-IsLedger b results l = elim (Option-cases b.processing) [
    | inl e ↦ rw (e, complete) l
    | inr (batch, e) ↦
        rw (e, complete)
          (settle-IsLedger b batch (answers batch results) _ e (λ n. times-answers n batch results)
            refl refl refl refl l)
  ]

  fail-IsLedger : (b : ContinuousBatcher Q A) → IsLedger b → IsLedger (fail b)
  unfolding fail finish
  fail-IsLedger b l = elim (Option-cases b.processing) [
    | inl e ↦ rw (e, fail) l
    | inr (batch, e) ↦
        rw (e, fail)
          (settle-IsLedger b batch (reject_all batch_failed batch) _ e
            (λ n. times-reject_all n batch_failed batch) refl refl refl refl l)
  ]

  clear-IsLedger : (b : ContinuousBatcher Q A) → IsLedger b → IsLedger (clear b)
  unfolding clear places
  clear-IsLedger b l n = ground (
    arith,
    l n,
    times-append n b.settled (reject_all shutting_down b.queue),
    times-reject_all n shutting_down b.queue,
  )

  immediate-IsLedger :
      (b : ContinuousBatcher Q A) (n : ℕ) → IsLedger b → IsLedger (record b { immediates = n })
  unfolding places
  immediate-IsLedger b n l = l

  step-IsLedger : (b : ContinuousBatcher Q A) (e : Event Q A) → IsLedger b → IsLedger (step b e)
  unfolding step fire_timer fire_immediate
  step-IsLedger b (enqueues q) l = enqueue-IsLedger b q l
  step-IsLedger b (completes results) l = complete-IsLedger b results l
  step-IsLedger b fails l = fail-IsLedger b l
  step-IsLedger b clears l = clear-IsLedger b l
  step-IsLedger b timer_fires l = if_both IsLedger b.batch_timer (process_batch-IsLedger b l) l
  step-IsLedger b immediate_fires l =
      if_both IsLedger (ltb 0 b.immediates)
        (process_batch-IsLedger (record b { immediates = b.immediates - 1 })
          (immediate-IsLedger b (b.immediates - 1) l))
        l

  run_from-IsLedger :
      (b : ContinuousBatcher Q A) (events : List (Event Q A)) → IsLedger b → IsLedger (run b events)
  unfolding run
  run_from-IsLedger b [] l = l
  run_from-IsLedger b (e ∷ events) l = run_from-IsLedger (step b e) events (step-IsLedger b e l)

  -- Whatever happens to a new batcher, each promise that `enqueue` made is at one place: waiting in
  -- the queue, in the batch that is being executed, or settled; no request is lost and no promise is
  -- settled twice.
  pub run_batcher-IsLedger :
      (config : BatcherConfig) (events : List (Event Q A)) → IsLedger (run (new config) events)
  unfolding new places
  run_batcher-IsLedger config events = run_from-IsLedger (new config) events (λ n. ground arith)
