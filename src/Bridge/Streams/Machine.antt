-- ===== src/Bridge/Streams/Machine.antt =====
-- Failures, and a registry driven by calls, of src/bridge/stream-registry.ts.
use mlx_serving.Prelude.{
  ℕ, ◌+◌, Bool, true, false, ◌&&◌, Option, none, some, List, [], ◌∷◌, String, ◌==◌, string_eq,
  nat_eq, if◌then◌else◌,
}
use mlx_serving.JsMap.{get, delete}
use mlx_serving.Bridge.ChunkPool
use mlx_serving.Bridge.ChunkPool.{ChunkPool, StreamChunk, NormalizedTokenPayload}
use mlx_serving.Bridge.Streams.Types.{
  StreamStats, StreamError, aborted_before_registration, cancelled_by_user, stream_aborted,
  shutdown, timed_out_after, runtime_error, rejected, error_event, StreamRegistry, Signal,
}
use mlx_serving.Bridge.Streams.Register.{emit, settle, register}
use mlx_serving.Bridge.Streams.Chunks.{handle_chunk, handle_stats, acknowledge_chunk}
use mlx_serving.Bridge.Streams.Ends.{
  remove, complete_stream, handle_timeout, cleanup, adjust_stream_limits,
}

-- The event of a stream that the runtime sends.
pub data RuntimeEvent : Type 0 where
  runtime_completed : RuntimeEvent
  runtime_failed : Option String → RuntimeEvent

pub data Call (F : Type 0) : Type 0 where
  registers : String → Signal → Option ℕ → Option String → Call F
  chunks : String → List (NormalizedTokenPayload F) → Call F
  reports : String → StreamStats F → Call F
  ends : String → RuntimeEvent → Call F
  acknowledges : String → ℕ → Call F
  cancels : String → Call F
  times_out aborts : ℕ → Call F
  adjusts : Option ℕ → (ℕ → ℕ → Bool) → (ℕ → ℕ → Bool) → (List ℕ → Bool) → Call F
  clears_pool cleans : Call F

-- Whether a text contains "cancelled" or "aborted" is an argument.
unfoldable pub is_cancellation : (String → Bool) → StreamError → Bool
is_cancellation mentions_cancel aborted_before_registration = true
is_cancellation mentions_cancel cancelled_by_user = true
is_cancellation mentions_cancel stream_aborted = true
is_cancellation mentions_cancel shutdown = false
is_cancellation mentions_cancel (timed_out_after n) = false
is_cancellation mentions_cancel (runtime_error text) = mentions_cancel text

module _ {F : Type 0} (mentions_cancel : String → Bool) where
  unfoldable pub fail_stream : StreamRegistry F → String → StreamError → StreamRegistry F
  fail_stream r stream_id error = elim (get stream_id r.streams) [
    | none ↦ r
    | some h ↦
        let r' = remove stream_id h r in
        let counted =
          if r.config.metrics_enabled && is_cancellation mentions_cancel error
          then record r' { total_streams_cancelled = r.total_streams_cancelled + 1 }
          else r' in
        if h.completed
        then r
        else settle h.promise (rejected error) (emit (error_event stream_id error) counted)
  ]

  unfoldable pub handle_event : StreamRegistry F → String → RuntimeEvent → ℕ → StreamRegistry F
  handle_event r stream_id runtime_completed now = complete_stream r stream_id now
  handle_event r stream_id (runtime_failed none) now =
      fail_stream r stream_id (runtime_error "Unknown error")
  handle_event r stream_id (runtime_failed (some text)) now =
      fail_stream r stream_id (runtime_error (if text == "" then "Unknown error" else text))

  abbrev pub cancel : StreamRegistry F → String → StreamRegistry F
  cancel r stream_id = fail_stream r stream_id cancelled_by_user

  abbrev pub handle_abort : StreamRegistry F → String → StreamRegistry F
  handle_abort r stream_id = fail_stream r stream_id stream_aborted

  -- A timer that fires is pending no more; an abort handler stays until it is removed.
  unfoldable pub step : StreamRegistry F → ℕ → Call F → StreamRegistry F
  step r now (registers stream_id signal timeout model_id) =
      (register r stream_id signal timeout model_id now).0
  step r now (chunks stream_id payloads) = handle_chunk r stream_id payloads now
  step r now (reports stream_id stats) = handle_stats r stream_id stats
  step r now (ends stream_id event) = handle_event r stream_id event now
  step r now (acknowledges stream_id count) = acknowledge_chunk r stream_id count
  step r now (cancels stream_id) = cancel r stream_id
  step r now (times_out n) = elim (get n r.timers) [
    | none ↦ r
    | some stream_id ↦ handle_timeout (record r { timers = delete n r.timers }) stream_id
  ]
  step r now (aborts n) = elim (get n r.abort_handlers) [
    | none ↦ r
    | some stream_id ↦ handle_abort r stream_id
  ]
  step r now (adjusts answer busy idle quick) = adjust_stream_limits r answer busy idle quick
  step r now clears_pool = record r { chunk_pool = ChunkPool.clear r.chunk_pool }
  step r now cleans = cleanup r

  unfoldable pub run : StreamRegistry F → List (ℕ × Call F) → StreamRegistry F
  run r [] = r
  run r ((now, call) ∷ calls) = run (step r now call) calls
