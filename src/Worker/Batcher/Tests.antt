-- ===== src/Worker/Batcher/Tests.antt =====
-- A batcher of at most two requests a batch.
use mlx_serving.Prelude.{ℕ, ◌-◌, ◌*◌, ◌≡◌, refl, false, List, [], ◌∷◌, length}
use mlx_serving.Worker.Batcher.{
  BatcherConfig, ContinuousBatcher, take, drop, new, process_batch, enqueue, answers, reject_all,
  update_stats, finish, complete, fail, clear, fire_timer, fire_immediate, Event, enqueues,
  completes, fails, immediate_fires, step, run,
}
use mlx_serving.Worker.Batcher.Ledger.{IsLedger, run_batcher-IsLedger}
use mlx_serving.Worker.Batcher.Live.{IsLive, run_batcher-IsLive, rounds, run-rounds}

abbrev small_config : BatcherConfig
small_config = record {
  min_batch_size = 1;
  max_batch_size = 2;
  batch_timeout_ms = 50;
  adaptive_timeout = false;
}

abbrev events : List (Event ℕ ℕ)
events =
    enqueues 7
    ∷ enqueues 8
    ∷ enqueues 9
    ∷ enqueues 10
    ∷ enqueues 11
    ∷ completes (70 ∷ [])
    ∷ immediate_fires
    ∷ fails
    ∷ []

abbrev used : ContinuousBatcher ℕ ℕ
used = run (new small_config) events

program : Unit {0}
unfolding take drop new process_batch enqueue answers reject_all update_stats finish complete fail
    clear fire_timer fire_immediate step run
program = tt

-- The second promise of a batch with one result is resolved with nothing; the batch that failed is
-- rejected; the fifth request waits.
used_queue :
    (used.queue ≡ (4, 11) ∷ []) × (length used.settled ≡ 4) × (used.stats.total_requests ≡ 2)
unfolding program
used_queue = (refl, refl, refl)

run_batcher-IsLedger_example : IsLedger used
run_batcher-IsLedger_example = run_batcher-IsLedger small_config events

run_batcher-IsLive_example : IsLive 2 used
run_batcher-IsLive_example = run_batcher-IsLive small_config events

run-rounds_example : length (run used (rounds ([] ∷ []))).queue ≡ length used.queue - 1 * 2
run-rounds_example =
    run-rounds 2 used ([] ∷ []) (run_batcher-IsLive small_config events) (unfold program in refl)
