-- ===== src/Worker/Queue/Bounds.antt =====
-- The depth of a worker's request queue, and the books that its counters keep.
use mlx_serving.Prelude.{ℕ, suc, ◌+◌, ◌≤◌, ◌≡◌, List, [], ◌∷◌, length-append, arith, subst}
use mlx_serving.Worker.Queue.{
  RequestPriority, high, medium, low, QueueConfig, RequestQueue, new, get_depth, is_full,
  drop_low_priority_request, refuse, admit, enqueue, dequeue, clear,
}

pub data Call (R : Type 0) : Type 0 where
  enqueues : R → RequestPriority → Call R
  dequeues clears : Call R

module _ {R : Type 0} where
  -- The queue after a call, and how many requests a `clear` has thrown away so far.
  unfoldable pub step : RequestQueue R × ℕ → ℕ × Call R → RequestQueue R × ℕ
  step (q, lost) (now, enqueues r p) = ((enqueue q r p now).0, lost)
  step (q, lost) (now, dequeues) = ((dequeue q now).0, lost)
  step (q, lost) (now, clears) = (clear q, lost + get_depth q)

  unfoldable pub run : RequestQueue R × ℕ → List (ℕ × Call R) → RequestQueue R × ℕ
  run s [] = s
  run s (c ∷ cs) = run (step s c) cs

  abbrev pub offered : List (ℕ × Call R) → ℕ
  offered [] = 0
  offered ((now, enqueues r p) ∷ cs) = suc (offered cs)
  offered ((now, c) ∷ cs) = offered cs

  pub record Accounts (s : RequestQueue R × ℕ) (calls : ℕ) : Type 0 where
    pub bounded : get_depth s.0 ≤ s.0.config.max_depth
    pub balanced :
        s.0.stats.total_enqueued
        ≡ s.0.stats.total_dequeued + s.0.stats.total_dropped + s.1 + get_depth s.0
    pub answered : s.0.stats.total_enqueued + s.0.stats.total_rejected ≡ calls

  admit-Accounts :
      (q : RequestQueue R) (lost n : ℕ) (r : R) (p : RequestPriority) (now : ℕ)
      → get_depth q + 1 ≤ q.config.max_depth
      → q.stats.total_enqueued ≡ q.stats.total_dequeued + q.stats.total_dropped + lost + get_depth q
      → q.stats.total_enqueued + q.stats.total_rejected ≡ n
      → Accounts ((admit q r p now).0, lost) (suc n)
  unfolding admit
  admit-Accounts q lost n r high now room balance total = ground (
    arith,
    length-append q.high_queue ((record { request = r; priority = high; enqueued_at = now }) ∷ []),
  )
  admit-Accounts q lost n r medium now room balance total = ground (
    arith,
    length-append q.medium_queue
        ((record { request = r; priority = medium; enqueued_at = now }) ∷ []),
  )
  admit-Accounts q lost n r low now room balance total = ground (
    arith,
    length-append q.low_queue ((record { request = r; priority = low; enqueued_at = now }) ∷ []),
  )

  enqueue-Accounts :
      (q : RequestQueue R) (lost n : ℕ) (r : R) (p : RequestPriority) (now : ℕ)
      → Accounts (q, lost) n
      → Accounts ((enqueue q r p now).0, lost) (suc n)
  unfolding enqueue is_full refuse drop_low_priority_request
  enqueue-Accounts q lost n r p now a = ground (
    arith,
    admit-Accounts q lost n r p now,
    admit-Accounts (drop_low_priority_request q).0 lost n r p now,
  )

  dequeue-Accounts :
      (q : RequestQueue R) (lost n : ℕ) (now : ℕ)
      → Accounts (q, lost) n
      → Accounts ((dequeue q now).0, lost) n
  unfolding dequeue
  dequeue-Accounts q lost n now a = ground arith

  step-Accounts :
      (s : RequestQueue R × ℕ) (n now : ℕ) (c : Call R)
      → Accounts s n
      → Accounts (step s (now, c)) (offered ((now, c) ∷ []) + n)
  unfolding step clear get_depth
  step-Accounts (q, lost) n now (enqueues r p) a =
      subst (Accounts _) (omega arith) (enqueue-Accounts q lost n r p now a)
  step-Accounts (q, lost) n now dequeues a =
      subst (Accounts _) (omega arith) (dequeue-Accounts q lost n now a)
  step-Accounts (q, lost) n now clears a = ground arith

  run-Accounts_from :
      (s : RequestQueue R × ℕ) (n : ℕ) (cs : List (ℕ × Call R))
      → Accounts s n
      → Accounts (run s cs) (offered cs + n)
  unfolding run
  run-Accounts_from s n [] a = subst (Accounts s) (omega arith) a
  run-Accounts_from s n ((now, c) ∷ cs) a =
      subst (Accounts _) (offered-cons now c cs)
        (run-Accounts_from (step s (now, c)) _ cs (step-Accounts s n now c a))
    where
      offered-cons :
          (now : ℕ) (c : Call R) (cs : List (ℕ × Call R))
          → offered cs + (offered ((now, c) ∷ []) + n) ≡ offered ((now, c) ∷ cs) + n
      offered-cons now (enqueues r p) cs = omega arith
      offered-cons now dequeues cs = omega arith
      offered-cons now clears cs = omega arith

  -- Whatever calls are made of a new queue: it never holds more than `maxDepth` requests; the
  -- requests taken in are those delivered, dropped, thrown away by a `clear` or still queued; and
  -- every offer was either taken in or refused.
  pub run-Accounts :
      (c : QueueConfig) (cs : List (ℕ × Call R)) → Accounts (run (new c, 0) cs) (offered cs)
  unfolding new get_depth
  run-Accounts c cs =
      subst (Accounts _) (omega arith) (run-Accounts_from (new c, 0) 0 cs (ground arith))
