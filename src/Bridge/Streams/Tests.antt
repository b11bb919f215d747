-- ===== src/Bridge/Streams/Tests.antt =====
-- Calls of a stream registry, with numbers for floats.
use mlx_serving.Prelude.{
  ℕ, inl, ◌≤◌, ◌≡◌, refl, Bool, true, false, none, some, List, [], ◌∷◌, String, string_eq, nat_eq,
  arith,
}
use mlx_serving.JsMap.{get, delete, put}
use mlx_serving.Bridge.ChunkPool
use mlx_serving.Bridge.ChunkPool.{ChunkPool, NormalizedTokenPayload}
use mlx_serving.Bridge.Streams.Types.{
  StreamConfig, StreamHandle, StreamRegistry, no_signal, live_signal, aborted_signal,
}
use mlx_serving.Bridge.Streams.Register.{
  new, emit, settle, effective_limit, new_handle, admit, enter, register, truthy, sample,
}
use mlx_serving.Bridge.Streams.Chunks.{
  mark_first, block, blocked_ms, press, emit_chunk_payload, take_payloads, handle_chunk,
  handle_stats, acknowledge_chunk,
}
use mlx_serving.Bridge.Streams.Ends.{
  remove, throughput, final_stats, count_completed, complete_stream, handle_timeout, shut_all,
  cleanup, adjust_stream_limits,
}
use mlx_serving.Bridge.Streams.Machine.{
  is_cancellation, fail_stream, handle_event, runtime_completed, Call, registers, chunks, ends,
  step, run,
}
use mlx_serving.Bridge.Streams.Ledger.{settlements}
use mlx_serving.Bridge.Streams.Orderly.{IsOrderly}
use mlx_serving.Bridge.Streams.Settled.{run_streams-IsOrderly, cleanup_settles_once}
use mlx_serving.Bridge.Streams.Backpressure.{
  IsGauged, Pressed, handle_chunk-Pressed, acknowledge_chunk-IsGauged,
}
use mlx_serving.Bridge.Streams.Limits.{Registered, register-Registered, adjust_stream_limits-bounds}

abbrev small_config : StreamConfig
small_config = record {
  default_timeout = 300;
  max_active_streams = 2;
  adaptive_limits_enabled = true;
  min_stream_limit = 1;
  max_stream_limit = 4;
  chunk_pooling_enabled = true;
  backpressure_enabled = true;
  max_unacked_chunks = 2;
  slow_consumer_threshold_ms = 5;
  metrics_enabled = true;
}

program : Unit {0}
unfolding new emit settle effective_limit new_handle admit enter register truthy sample mark_first
    block blocked_ms press emit_chunk_payload take_payloads handle_chunk handle_stats
    acknowledge_chunk remove throughput final_stats count_completed complete_stream handle_timeout
    shut_all cleanup adjust_stream_limits is_cancellation fail_stream handle_event step run get
    delete put ChunkPool.new ChunkPool.acquire ChunkPool.release ChunkPool.clear
program = tt

abbrev never : String → Bool
never s = false

abbrev token : NormalizedTokenPayload ℕ
token = record {
  token = "a";
  token_id = 7;
  is_final = false;
  logprob = none;
  cumulative_text = none;
}

abbrev empty : StreamRegistry ℕ
empty = new small_config 2 (ChunkPool.new 3)

abbrev calls : List (ℕ × Call ℕ)
calls =
    (10, registers "s" live_signal none none)
    ∷ (11, registers "t" no_signal (some 50) none)
    ∷ (12, chunks "s" (token ∷ token ∷ []))
    ∷ (13, ends "t" runtime_completed)
    ∷ (14, registers "t" aborted_signal none none)
    ∷ []

abbrev used : StreamRegistry ℕ
used = run never empty calls

-- Of three promises two are settled.
used_created : used.total_streams_created ≡ 3
unfolding program
used_created = refl

used_settlements :
    (settlements 0 used.settled ≡ 0)
    × (settlements 1 used.settled ≡ 1)
    × (settlements 2 used.settled ≡ 1)
unfolding program
used_settlements = (refl, refl, refl)

run_streams-IsOrderly_example : IsOrderly used
run_streams-IsOrderly_example = run_streams-IsOrderly never small_config 2 (ChunkPool.new 3) calls

cleanup_settles_once_example :
    ((cleanup used).streams ≡ []) × (settlements 0 (cleanup used).settled ≡ 1)
cleanup_settles_once_example =
    cleanup_settles_once never small_config 2 (ChunkPool.new 3) calls 0
      (unfold program in omega arith)

abbrev started : StreamHandle ℕ
started = new_handle empty "s" live_signal none none 10

abbrev one_stream : StreamRegistry ℕ
one_stream = (register empty "s" live_signal none none 10).0

handle_chunk-Pressed_example :
    (h : StreamHandle ℕ) × (get "s"
        (handle_chunk one_stream "s" (token ∷ token ∷ token ∷ []) 12).streams
      ≡ some h)
    × Pressed 2 12 3 started h
unfolding program
handle_chunk-Pressed_example =
    handle_chunk-Pressed one_stream "s" started (token ∷ token ∷ token ∷ []) 12 refl refl refl
      (omega arith) refl

abbrev pressed : StreamRegistry ℕ
pressed = handle_chunk one_stream "s" (token ∷ token ∷ token ∷ []) 12

abbrev pressed_handle : StreamHandle ℕ
pressed_handle = (take_payloads (token ∷ token ∷ token ∷ []) 12 started one_stream).1

acknowledge_chunk-IsGauged_example :
    (h : StreamHandle ℕ) × (get "s" (acknowledge_chunk pressed "s" 2).streams ≡ some h)
    × (h.unacked_chunks ≡ 1)
    × IsGauged 2 h
unfolding program
acknowledge_chunk-IsGauged_example =
    acknowledge_chunk-IsGauged pressed "s" pressed_handle 2 refl refl refl refl

register-Registered_example :
    Registered used "u" no_signal (register used "u" no_signal none none 20)
register-Registered_example = register-Registered used "u" no_signal none none 20

adjust_stream_limits-bounds_example :
    (1
      ≤ (adjust_stream_limits used none
          (λ a l. true)
          (λ a l. false)
          (λ x. true)).current_stream_limit)
    × ((adjust_stream_limits used none
          (λ a l. true)
          (λ a l. false)
          (λ x. true)).current_stream_limit
        ≤ 4)
unfolding program
adjust_stream_limits-bounds_example =
    adjust_stream_limits-bounds used none (λ a l. true) (λ a l. false) (λ x. true) (omega arith)
      (inl (omega arith, omega arith))
