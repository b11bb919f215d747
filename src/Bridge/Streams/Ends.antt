-- ===== src/Bridge/Streams/Ends.antt =====
-- How a stream ends, `cleanup` and the limit in src/bridge/stream-registry.ts.
use mlx_serving.Prelude.{
  ℕ, ◌+◌, ◌-◌, min, max, Bool, false, ◌&&◌, not, Option, none, some, List, [], ◌∷◌, String,
  string_eq, nat_eq, if◌then◌else◌, ltb, length, filter_b,
}
use mlx_serving.JsMap.{JsMap, get, delete}
use mlx_serving.Bridge.ChunkPool
use mlx_serving.Bridge.ChunkPool.{ChunkPool, StreamChunk, NormalizedTokenPayload}
use mlx_serving.Bridge.Streams.Types.{
  Throughput, StreamStats, measured, StreamHandle, shutdown, timed_out_after, resolved, rejected,
  completed_event, error_event, timeout_event, StreamRegistry,
}
use mlx_serving.Bridge.Streams.Register.{truthy, sample, emit, settle}

module _ {F : Type 0} where
  -- The timer and the abort handler are taken away, and then the handle.
  unfoldable pub remove : String → StreamHandle F → StreamRegistry F → StreamRegistry F
  remove stream_id h r = record r {
    timers = delete h.promise r.timers;
    abort_handlers = if h.has_signal then delete h.promise r.abort_handlers else r.abort_handlers;
    streams = delete stream_id r.streams;
  }

  unfoldable pub throughput : StreamHandle F → Option Throughput
  throughput h = elim h.first_token_at [
    | none ↦ none
    | some first ↦ elim h.last_chunk_at [
      | none ↦ none
      | some last ↦
          if truthy (some first) && truthy (some last) && ltb 0 h.chunk_count && ltb first last
          then some (h.chunk_count, last - first)
          else none
    ]
  ]

  -- The time to the first token is 0 where there was none, and the total time is in milliseconds.
  unfoldable pub final_stats : StreamHandle F → ℕ → StreamStats F
  final_stats h now = elim h.stats [
    | some stats ↦ stats
    | none ↦
        measured h.chunk_count (throughput h)
          (elim h.first_token_at [
            | none ↦ 0
            | some t ↦ if truthy (some t) then t - h.started_at else 0
          ])
          (now - h.started_at)
  ]

  unfoldable pub count_completed : StreamHandle F → StreamRegistry F → StreamRegistry F
  count_completed h r =
      if r.config.metrics_enabled
      then record r {
        total_streams_completed = r.total_streams_completed + 1;
        throughput_samples = elim (throughput h) [
          | none ↦ r.throughput_samples
          | some x ↦ sample x r.throughput_samples
        ];
      }
      else r

  unfoldable pub complete_stream : StreamRegistry F → String → ℕ → StreamRegistry F
  complete_stream r stream_id now = elim (get stream_id r.streams) [
    | none ↦ r
    | some h ↦
        let stats = final_stats h now in
        if h.completed
        then r
        else settle h.promise (resolved stats)
            (emit (completed_event stream_id stats) (count_completed h (remove stream_id h r)))
  ]

  unfoldable pub handle_timeout : StreamRegistry F → String → StreamRegistry F
  handle_timeout r stream_id = elim (get stream_id r.streams) [
    | none ↦ r
    | some h ↦
        let error = timed_out_after h.timeout in
        if h.completed
        then r
        else settle h.promise (rejected error) (
            emit (error_event stream_id error)
              (emit (timeout_event stream_id) (remove stream_id h r)))
  ]

  unfoldable pub is_active : StreamRegistry F → String → Bool
  is_active r stream_id = elim (get stream_id r.streams) [ none ↦ false | some h ↦ not h.completed ]

  unfoldable pub get_active_count : StreamRegistry F → ℕ
  get_active_count r = length (filter_b (λ p. not p.1.completed) r.streams)

  -- The loop of `cleanup`, over the handles that the map had when it began.
  unfoldable pub shut_all : JsMap String (StreamHandle F) → StreamRegistry F → StreamRegistry F
  shut_all [] r = r
  shut_all ((stream_id, h) ∷ handles) r =
      let r' = record r {
        timers = delete h.promise r.timers;
        abort_handlers =
            if h.has_signal then delete h.promise r.abort_handlers else r.abort_handlers;
      } in
      shut_all handles (if h.completed then r' else settle h.promise (rejected shutdown) r')

  unfoldable pub cleanup : StreamRegistry F → StreamRegistry F
  cleanup r =
      let r' = shut_all r.streams r in
      record r' { streams = []; chunk_pool = ChunkPool.clear r'.chunk_pool }

  -- `answer` is the governor's limit, if there is one; `busy` and `idle` compare the share of the
  -- limit that is used with the thresholds, and `quick` the mean time to the first token.
  unfoldable pub adjust_stream_limits :
      StreamRegistry F
      → Option ℕ
      → (ℕ → ℕ → Bool)
      → (ℕ → ℕ → Bool)
      → (List ℕ → Bool)
      → StreamRegistry F
  adjust_stream_limits r answer busy idle quick =
      let active = get_active_count r in
      let limit = r.current_stream_limit in
      let raised =
        if busy active limit && quick r.ttft_samples
        then min r.config.max_stream_limit (limit + 5)
        else limit in
      let moved = if idle active limit then max r.config.min_stream_limit (limit - 2) else raised in
      if r.config.adaptive_limits_enabled
      then record r {
        current_stream_limit = elim answer [
          | some n ↦ min (max n r.config.min_stream_limit) r.config.max_stream_limit
          | none ↦ moved
        ];
      }
      else r
