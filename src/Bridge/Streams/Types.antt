-- ===== src/Bridge/Streams/Types.antt =====
-- The data of src/bridge/stream-registry.ts.
use mlx_serving.Prelude.{ℕ, Bool, Option, List, String, string_eq, nat_eq}
use mlx_serving.JsMap.{JsMap}
use mlx_serving.Bridge.ChunkPool.{ChunkPool, StreamChunk}

pub record StreamConfig : Type 0 where
  pub default_timeout : ℕ
  pub max_active_streams : ℕ
  pub adaptive_limits_enabled : Bool
  pub min_stream_limit : ℕ
  pub max_stream_limit : ℕ
  pub chunk_pooling_enabled : Bool
  pub backpressure_enabled : Bool
  pub max_unacked_chunks : ℕ
  pub slow_consumer_threshold_ms : ℕ
  pub metrics_enabled : Bool

-- A throughput: how many chunks, in how many milliseconds.
abbrev pub Throughput : Type 0
Throughput = ℕ × ℕ

-- The statistics of the runtime, or those that the registry makes of the handle.
pub data StreamStats (F : Type 0) : Type 0 where
  reported : ℕ → F → F → F → StreamStats F
  measured : ℕ → Option Throughput → ℕ → ℕ → StreamStats F

pub record StreamHandle (F : Type 0) : Type 0 where
  pub stream_id : String
  pub started_at : ℕ
  pub timeout : ℕ
  pub has_signal : Bool
  pub promise : ℕ
  pub chunk_count : ℕ
  pub stats : Option (StreamStats F)
  pub completed : Bool
  pub first_token_at : Option ℕ
  pub last_chunk_at : Option ℕ
  pub unacked_chunks : ℕ
  pub blocked_since : Option ℕ
  pub model_id : Option String

pub data StreamError : Type 0 where
  aborted_before_registration cancelled_by_user stream_aborted shutdown : StreamError
  timed_out_after : ℕ → StreamError
  runtime_error : String → StreamError

pub data Outcome (F : Type 0) : Type 0 where
  resolved : StreamStats F → Outcome F
  rejected : StreamError → Outcome F

pub data StreamEvent (F : Type 0) : Type 0 where
  chunk : StreamChunk F → StreamEvent F
  stats_event : String → StreamStats F → StreamEvent F
  completed_event : String → StreamStats F → StreamEvent F
  error_event : String → StreamError → StreamEvent F
  timeout_event : String → StreamEvent F
  backpressure : String → ℕ → StreamEvent F
  slow_consumer : String → ℕ → StreamEvent F

-- `settled` lists the promises that were resolved or rejected, and `events` what was emitted, the
-- last first.
pub record StreamRegistry (F : Type 0) : Type 0 where
  pub config : StreamConfig
  pub streams : JsMap String (StreamHandle F)
  pub chunk_pool : ChunkPool F
  pub current_stream_limit : ℕ
  pub total_streams_created : ℕ
  pub total_streams_completed : ℕ
  pub total_streams_cancelled : ℕ
  pub ttft_samples : List ℕ
  pub throughput_samples : List Throughput
  pub timers : JsMap ℕ String
  pub abort_handlers : JsMap ℕ String
  pub settled : List (ℕ × Outcome F)
  pub events : List (StreamEvent F)

pub data RegisterResult : Type 0 where
  promised : ℕ → RegisterResult
  already_registered : RegisterResult
  limit_exceeded : ℕ → RegisterResult

pub data Signal : Type 0 where
  no_signal live_signal aborted_signal : Signal
