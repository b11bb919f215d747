-- ===== src/Worker/Queue/Tests.antt =====
-- The worker's request queue of src/distributed/worker/request-queue.ts on small inputs.
use mlx_serving.Prelude.{◌≡◌, refl, true, false, some, [], ◌∷◌, String}
use mlx_serving.Prelude.Int.{pos}
use mlx_serving.Worker.Queue.{
  high, medium, low, drop_low_priority, QueueConfig, RequestQueue, new, get_depth, is_full, push,
  drop_low_priority_request, refuse, admit, enqueue, deliver, dequeue, clear, get_stats,
}
use mlx_serving.Worker.Queue.Bounds.{enqueues, dequeues, clears, step, run, Accounts, run-Accounts}
use mlx_serving.Worker.Queue.Order.{IsSorted, contents}
use mlx_serving.Worker.Queue.Refine.{spec_enqueue, spec_dequeue, enqueue-refines, dequeue-refines}

program : Unit {0}
unfolding new get_depth is_full push drop_low_priority_request refuse admit enqueue deliver dequeue
    clear get_stats step run
program = tt

abbrev two : QueueConfig
two = record { max_depth = 2; backpressure_strategy = drop_low_priority }

abbrev full : RequestQueue String
full = (run (new two, 0) ((1, enqueues "a" low) ∷ (2, enqueues "b" medium) ∷ [])).0

-- The low request makes room for a high one, which is delivered first.
drops_low :
    ((enqueue full "c" high 3).1 ≡ true)
    × ((dequeue (enqueue full "c" high 3).0 9).1 ≡ some "c")
    × ((enqueue (enqueue full "c" high 3).0 "d" high 4).1 ≡ false)
    × ((get_stats (enqueue full "c" high 3).0).total_dropped ≡ 1)
    × ((dequeue (enqueue full "c" high 3).0 9).0.total_wait_time ≡ pos 6)
unfolding program
drops_low = (refl, refl, refl, refl, refl)

run-Accounts_example :
    Accounts {R = String}
      (run
        (new two, 0)
        ((1, enqueues "a" low) ∷ (2, dequeues) ∷ (3, enqueues "b" high) ∷ (4, clears) ∷ []))
      2
run-Accounts_example =
    run-Accounts two
      ((1, enqueues "a" low) ∷ (2, dequeues) ∷ (3, enqueues "b" high) ∷ (4, clears) ∷ [])

full-IsSorted : IsSorted full
unfolding program
full-IsSorted = record { high_sorted = tt; medium_sorted = (refl, tt); low_sorted = (refl, tt) }

enqueue-refines_example :
    ((contents (enqueue full "c" high 3).0, (enqueue full "c" high 3).1)
      ≡ spec_enqueue two
          (record { request = "c"; priority = high; enqueued_at = 3 })
          (contents full))
    × IsSorted (enqueue full "c" high 3).0
unfolding program
enqueue-refines_example = enqueue-refines full "c" high 3 full-IsSorted

dequeue-refines_example :
    ((contents (dequeue full 9).0, (dequeue full 9).1) ≡ spec_dequeue (contents full))
    × IsSorted (dequeue full 9).0
dequeue-refines_example = dequeue-refines full 9 full-IsSorted
