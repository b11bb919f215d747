-- ===== src/Bridge/Streams/Chunks.antt =====
-- What a chunk, statistics and an acknowledgement do in src/bridge/stream-registry.ts.
use mlx_serving.Prelude.{
  ℕ, ◌+◌, ◌-◌, ◌&&◌, not, none, some, List, [], ◌∷◌, String, string_eq, nat_eq, if◌then◌else◌, leb,
  ltb, eqb,
}
use mlx_serving.JsMap.{get, put}
use mlx_serving.Bridge.ChunkPool
use mlx_serving.Bridge.ChunkPool.{ChunkPool, StreamChunk, NormalizedTokenPayload}
use mlx_serving.Bridge.Streams.Types.{
  StreamStats, StreamHandle, chunk, stats_event, backpressure, slow_consumer, StreamRegistry,
}
use mlx_serving.Bridge.Streams.Register.{truthy, sample, emit}

module _ {F : Type 0} where
  -- The first token of a stream.
  unfoldable pub mark_first :
      ℕ → StreamHandle F → StreamRegistry F → StreamRegistry F × StreamHandle F
  mark_first now h r =
      if eqb h.chunk_count 1 && not (truthy h.first_token_at)
      then (
        if r.config.metrics_enabled
            then record r { ttft_samples = sample (now - h.started_at) r.ttft_samples }
            else r,
        record h { first_token_at = some now },
      )
      else (r, h)

  unfoldable pub block : ℕ → StreamHandle F → StreamHandle F
  block now h = if truthy h.blocked_since then h else record h { blocked_since = some now }

  unfoldable pub blocked_ms : ℕ → StreamHandle F → ℕ
  blocked_ms now h = elim h.blocked_since [ none ↦ 0 | some t ↦ now - t ]

  -- One more chunk that the consumer has not acknowledged.
  unfoldable pub press : ℕ → StreamHandle F → StreamRegistry F → StreamRegistry F × StreamHandle F
  press now h r =
      let h' = record h { unacked_chunks = h.unacked_chunks + 1 } in
      let b = block now h' in
      let r' = emit (backpressure h.stream_id h'.unacked_chunks) r in
      if r.config.backpressure_enabled
      then (if leb r.config.max_unacked_chunks h'.unacked_chunks
          then (
            if ltb r.config.slow_consumer_threshold_ms (blocked_ms now b)
                then emit (slow_consumer h.stream_id (blocked_ms now b)) r'
                else r',
            b,
          )
          else (r, h'))
      else (r, h)

  unfoldable pub emit_chunk_payload :
      String → NormalizedTokenPayload F → StreamRegistry F → StreamRegistry F
  emit_chunk_payload stream_id payload r =
      let (taken, pooled) = ChunkPool.acquire r.chunk_pool stream_id payload in
      let r' =
        if r.config.chunk_pooling_enabled
        then record r { chunk_pool = ChunkPool.release taken pooled }
        else r in
      emit (chunk (record { stream_id = stream_id; payload = payload })) r'

  -- The loop of `handleChunk`, on the handle, which it shares with the map.
  unfoldable pub take_payloads :
      List (NormalizedTokenPayload F)
      → ℕ
      → StreamHandle F
      → StreamRegistry F
      → StreamRegistry F × StreamHandle F
  take_payloads [] now h r = (r, h)
  take_payloads (payload ∷ payloads) now h r =
      let (r', h') = mark_first now (record h { chunk_count = h.chunk_count + 1 }) r in
      let (r'', h'') = press now (record h' { last_chunk_at = some now }) r' in
      take_payloads payloads now h'' (emit_chunk_payload h.stream_id payload r'')

  unfoldable pub handle_chunk :
      StreamRegistry F → String → List (NormalizedTokenPayload F) → ℕ → StreamRegistry F
  handle_chunk r stream_id payloads now = elim (get stream_id r.streams) [
    | none ↦ r
    | some h ↦
        let (r', h') = take_payloads payloads now h r in
        if h.completed then r else record r' { streams = put stream_id h' r'.streams }
  ]

  unfoldable pub handle_stats : StreamRegistry F → String → StreamStats F → StreamRegistry F
  handle_stats r stream_id stats = elim (get stream_id r.streams) [
    | none ↦ r
    | some h ↦
        emit (stats_event stream_id stats)
          (record r { streams = put stream_id (record h { stats = some stats }) r.streams })
  ]

  unfoldable pub acknowledge_chunk : StreamRegistry F → String → ℕ → StreamRegistry F
  acknowledge_chunk r stream_id count = elim (get stream_id r.streams) [
    | none ↦ r
    | some h ↦
        let left = h.unacked_chunks - count in
        let unblocked = ltb left r.config.max_unacked_chunks && truthy h.blocked_since in
        let h' = record h {
          unacked_chunks = left;
          blocked_since = if unblocked then none else h.blocked_since;
        } in
        if r.config.backpressure_enabled
        then (if h.completed then r else record r { streams = put stream_id h' r.streams })
        else r
  ]
