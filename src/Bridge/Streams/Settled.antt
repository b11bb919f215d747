-- ===== src/Bridge/Streams/Settled.antt =====
-- Runs of the stream registry of src/bridge/stream-registry.ts.
use mlx_serving.Prelude.{
  ℕ, ◌<◌, ◌≡◌, sym, ap, subst, Bool, Option, none, some, List, [], ◌∷◌, String, string_eq, nat_eq,
  if_false, if_both, arith, Option-cases, inl, inr,
}
use mlx_serving.JsMap.{get, delete, total, get-delete_self, delete_absent}
use mlx_serving.Bridge.ChunkPool.{ChunkPool}
use mlx_serving.Bridge.Streams.Types.{
  StreamConfig, StreamRegistry, rejected, error_event, timeout_event, timed_out_after,
}
use mlx_serving.Bridge.Streams.Register.{new, emit, settle}
use mlx_serving.Bridge.Streams.Chunks.{}
use mlx_serving.Bridge.Streams.Ends.{remove, handle_timeout, cleanup, adjust_stream_limits}
use mlx_serving.Bridge.Streams.Machine.{
  handle_event, RuntimeEvent, runtime_completed, runtime_failed, Call, registers, chunks, reports,
  ends, acknowledges, cancels, times_out, aborts, adjusts, clears_pool, cleans, step, run,
}
use mlx_serving.Bridge.Streams.Ledger.{is_for, settlements, empty-IsLedger}
use mlx_serving.Bridge.Streams.Timers.{empty-AreArmed}
use mlx_serving.Bridge.Streams.Orderly.{
  books, IsOrderly, same-IsOrderly, complete_stream-IsOrderly, remove-IsOrderly,
  fail_stream-IsOrderly, register-IsOrderly,
}
use mlx_serving.Bridge.Streams.Unmoved.{
  handle_chunk-IsOrderly, acknowledge_chunk-IsOrderly, handle_stats-IsOrderly,
}
use mlx_serving.Bridge.Streams.Shutdown.{cleanup-IsOrderly, created-cleanup, streams-cleanup}

module _ {F : Type 0} (mentions_cancel : String → Bool) where
  handle_event-IsOrderly :
      (r : StreamRegistry F) (k : String) (event : RuntimeEvent) (now : ℕ)
      → IsOrderly r
      → IsOrderly (handle_event mentions_cancel r k event now)
  unfolding handle_event
  handle_event-IsOrderly r k runtime_completed now o = complete_stream-IsOrderly r k now o
  handle_event-IsOrderly r k (runtime_failed none) now o =
      fail_stream-IsOrderly mentions_cancel r k _ o
  handle_event-IsOrderly r k (runtime_failed (some text)) now o =
      fail_stream-IsOrderly mentions_cancel r k _ o

  -- The timer that fires is the one that the method would clear.
  fire-IsOrderly :
      (r : StreamRegistry F) (n : ℕ) (k : String)
      → get n r.timers ≡ some k
      → IsOrderly r
      → IsOrderly (handle_timeout (record r { timers = delete n r.timers }) k)
  unfolding handle_timeout settle emit remove
  fire-IsOrderly r n k q (l, a) =
      let (h, e, p) = a.pending n k q in
      let cleared = record r { timers = delete n r.timers } in
      let error = timed_out_after h.timeout in
      let removed = settle h.promise (rejected error) (remove k h r) in
      let timed_out : StreamRegistry F =
        settle h.promise (rejected error)
          (emit (error_event k error) (emit (timeout_event k) (remove k h cleared))) in
      let once : delete h.promise (delete n r.timers) ≡ delete h.promise r.timers =
        subst (λ i. delete i (delete n r.timers) ≡ delete i r.timers) (sym p)
          (delete_absent n (delete n r.timers) (get-delete_self n r.timers a.timers_distinct)) in
      let same : books timed_out ≡ books removed =
        ap
          (λ t. (
            delete k r.streams,
            removed.settled,
            r.total_streams_created,
            t,
            removed.abort_handlers,
          ))
          once in
      let run : handle_timeout cleared k ≡ timed_out =
        rw (e, handle_timeout) (if_false cleared timed_out (l.unfinished k h e)) in
      subst IsOrderly (sym run)
        (same-IsOrderly removed timed_out same (remove-IsOrderly k h (rejected error) r e (l, a)))

  adjust-IsOrderly :
      (r : StreamRegistry F) (answer : Option ℕ) (busy idle : ℕ → ℕ → Bool) (quick : List ℕ → Bool)
      → IsOrderly r
      → IsOrderly (adjust_stream_limits r answer busy idle quick)
  unfolding adjust_stream_limits
  adjust-IsOrderly r answer busy idle quick o =
      if_both IsOrderly r.config.adaptive_limits_enabled o o

  step-IsOrderly :
      (r : StreamRegistry F) (now : ℕ) (call : Call F)
      → IsOrderly r
      → IsOrderly (step mentions_cancel r now call)
  unfolding step
  step-IsOrderly r now (registers k signal timeout model_id) o =
      register-IsOrderly r k signal timeout model_id now o
  step-IsOrderly r now (chunks k payloads) o = handle_chunk-IsOrderly r k payloads now o
  step-IsOrderly r now (reports k stats) o = handle_stats-IsOrderly r k stats o
  step-IsOrderly r now (ends k event) o = handle_event-IsOrderly r k event now o
  step-IsOrderly r now (acknowledges k count) o = acknowledge_chunk-IsOrderly r k count o
  step-IsOrderly r now (cancels k) o = fail_stream-IsOrderly mentions_cancel r k _ o
  step-IsOrderly r now (times_out n) o = elim (Option-cases (get n r.timers)) [
    | inl e ↦ rw (e, step) o
    | inr (k, e) ↦ rw (e, step) (fire-IsOrderly r n k e o)
  ]
  step-IsOrderly r now (aborts n) o = elim (Option-cases (get n r.abort_handlers)) [
    | inl e ↦ rw (e, step) o
    | inr (k, e) ↦ rw (e, step) (fail_stream-IsOrderly mentions_cancel r k _ o)
  ]
  step-IsOrderly r now (adjusts answer busy idle quick) o =
      adjust-IsOrderly r answer busy idle quick o
  step-IsOrderly r now clears_pool o = o
  step-IsOrderly r now cleans o = cleanup-IsOrderly r o

  run-IsOrderly :
      (r : StreamRegistry F) (calls : List (ℕ × Call F))
      → IsOrderly r
      → IsOrderly (run mentions_cancel r calls)
  unfolding run
  run-IsOrderly r [] o = o
  run-IsOrderly r ((now, call) ∷ calls) o =
      run-IsOrderly (step mentions_cancel r now call) calls (step-IsOrderly r now call o)

  new-IsOrderly :
      (config : StreamConfig) (limit : ℕ) (pool : ChunkPool F) → IsOrderly (new config limit pool)
  unfolding new
  new-IsOrderly config limit pool = (empty-IsLedger, empty-AreArmed)

  -- Whatever is called of a new registry, in any order: each promise that `register` made either is
  -- that of exactly one stream in the map or was settled exactly once, and no other was settled; no
  -- name has two streams; each stream in the map has a pending timer; and each pending timer and
  -- each abort handler belongs to a stream in the map, so that none can end a later stream of the
  -- same name.
  pub run_streams-IsOrderly :
      (config : StreamConfig) (limit : ℕ) (pool : ChunkPool F) (calls : List (ℕ × Call F))
      → IsOrderly (run mentions_cancel (new config limit pool) calls)
  run_streams-IsOrderly config limit pool calls =
      run-IsOrderly (new config limit pool) calls (new-IsOrderly config limit pool)

  -- However the registry was used, `cleanup` leaves no stream, and every promise that `register`
  -- made is settled, exactly once.
  pub cleanup_settles_once :
      (config : StreamConfig) (limit : ℕ) (pool : ChunkPool F) (calls : List (ℕ × Call F)) (n : ℕ)
      → n < (run mentions_cancel (new config limit pool) calls).total_streams_created
      → ((cleanup (run mentions_cancel (new config limit pool) calls)).streams ≡ [])
        × (settlements n (cleanup (run mentions_cancel (new config limit pool) calls)).settled ≡ 1)
  cleanup_settles_once config limit pool calls n below =
      let r = run mentions_cancel (new config limit pool) calls in
      let o = run_streams-IsOrderly config limit pool calls in
      let once = (cleanup-IsOrderly r o).0.once n in
      let none_left = ap (total (is_for n)) (streams-cleanup r) in
      let same = created-cleanup r o in
      (streams-cleanup r, ground (arith, once, none_left, same, below))
