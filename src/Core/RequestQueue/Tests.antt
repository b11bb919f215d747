-- ===== src/Core/RequestQueue/Tests.antt =====
-- The request queue of src/core/request-queue.ts on small inputs.
use mlx_serving.Prelude.{String, ◌+◌, ◌≡◌, refl, true, false, none, some, List, [], ◌∷◌}
use mathlib.Core.List.{Sublistᴰ}
use mlx_serving.Prelude.Int.{pos}
use mlx_serving.JsMap.{get, put, delete, keys}
use mlx_serving.Core.RequestQueue.{
  RequestQueue, new, limit_of, activate, process_from, process_queue, execute, settle_active,
  finish, handle_timeout, remove_first, cancel_pending, cancel, cancel_all, clear_pending,
  drain_check, drained, drain_timeout, waits, is_empty, Event, executes, finishes, times_out,
  cancels, step, run, cancelled, timed_out,
}
use mlx_serving.Core.RequestQueue.Invariant.{IsValid}
use mlx_serving.Core.RequestQueue.Fifo.{run-started}
use mlx_serving.Core.RequestQueue.Ledger.{occurs, ids, settled_ids, run-places}
use mlx_serving.Core.RequestQueue.Preserved.{run_queue-IsValid}

program : Unit {0}
unfolding new limit_of activate process_from process_queue execute settle_active finish
    handle_timeout remove_first cancel_pending cancel cancel_all clear_pending drain_check is_empty
    step run get put delete
program = tt

abbrev one : RequestQueue
one = new (some (pos 1)) none

abbrev busy : RequestQueue
busy = run one (executes "a" 0 ∷ executes "b" 1 ∷ executes "c" 2 ∷ [])

one_at_a_time :
    (busy.started ≡ "a" ∷ []) × (keys busy.active ≡ "a" ∷ []) × (keys busy.pending ≡ "b" ∷ "c" ∷ [])
unfolding program
one_at_a_time = (refl, refl, refl)

-- The waiting "b" is cancelled, "a" times out, and the late end of "a" settles nothing again.
abbrev later : RequestQueue
later = run busy (cancels "b" ∷ times_out "a" ∷ finishes "a" true ∷ [])

settles_once :
    (later.started ≡ "a" ∷ "c" ∷ []) × (later.settled ≡ ("b", cancelled) ∷ ("a", timed_out) ∷ [])
unfolding program
settles_once = (refl, refl)

unlimited :
    keys (run (new none none) (executes "a" 0 ∷ executes "b" 1 ∷ [])).active ≡ "a" ∷ "b" ∷ []
unfolding program
unlimited = refl

drains :
    (drain_check busy 0 100 50 ≡ waits)
    × (drain_check busy 0 100 101 ≡ drain_timeout)
    × (drain_check one 0 100 101 ≡ drained)
    × (is_empty busy ≡ false)
unfolding program
drains = (refl, refl, refl, refl)

abbrev calls : List Event
calls = executes "a" 0 ∷ executes "b" 1 ∷ cancels "b" ∷ finishes "a" true ∷ []

run_queue-IsValid_example : IsValid (run one calls)
unfolding program
run_queue-IsValid_example =
    run_queue-IsValid (some (pos 1)) none calls ((refl, refl), ((refl, refl), (tt, (tt, tt))))

run-places_example :
    let q = run one calls in
    occurs "a" (ids q.queue) + (occurs "a" (keys q.active) + occurs "a" (settled_ids q)) ≡ 1
unfolding program
run-places_example =
    run-places (some (pos 1)) none calls "a" ((refl, refl), ((refl, refl), (tt, (tt, tt))))

run-started_example : Sublistᴰ {A = String} ("a" ∷ []) ("a" ∷ "b" ∷ [])
unfolding program
run-started_example =
    run-started (some (pos 1)) none calls ((refl, refl), ((refl, refl), (tt, (tt, tt))))
