-- ===== src/Bridge/Streams/Register.antt =====
-- The constructor and `register` of src/bridge/stream-registry.ts.
use mlx_serving.Prelude.{
  ℕ, zero, suc, ◌+◌, Bool, true, false, Option, none, some, List, [], ◌∷◌, ◌++◌, String, string_eq,
  nat_eq, if◌then◌else◌, leb, ltb, length,
}
use mlx_serving.JsMap.{put, has}
use mlx_serving.Bridge.ChunkPool.{ChunkPool}
use mlx_serving.Bridge.Streams.Types.{
  StreamConfig, StreamHandle, aborted_before_registration, Outcome, rejected, StreamEvent,
  StreamRegistry, RegisterResult, promised, already_registered, limit_exceeded, Signal, no_signal,
  live_signal, aborted_signal,
}

-- A time counts as set only if it is not 0.
unfoldable pub truthy : Option ℕ → Bool
truthy none = false
truthy (some zero) = false
truthy (some (suc n)) = true

-- `push`, and `shift` above a hundred samples.
unfoldable pub sample {ℓ} : {A : Type ℓ} → A → List A → List A
sample a [] = a ∷ []
sample a (b ∷ bs) = if ltb 100 (length (b ∷ bs) + 1) then bs ++ a ∷ [] else b ∷ bs ++ a ∷ []

module _ {F : Type 0} where
  unfoldable pub new : StreamConfig → ℕ → ChunkPool F → StreamRegistry F
  new config current_stream_limit pool = record {
    config = config;
    streams = [];
    chunk_pool = pool;
    current_stream_limit = current_stream_limit;
    total_streams_created = 0;
    total_streams_completed = 0;
    total_streams_cancelled = 0;
    ttft_samples = [];
    throughput_samples = [];
    timers = [];
    abort_handlers = [];
    settled = [];
    events = [];
  }

  unfoldable pub emit : StreamEvent F → StreamRegistry F → StreamRegistry F
  emit e r = record r { events = e ∷ r.events }

  unfoldable pub settle : ℕ → Outcome F → StreamRegistry F → StreamRegistry F
  settle promise outcome r = record r { settled = (promise, outcome) ∷ r.settled }

  unfoldable pub effective_limit : StreamRegistry F → ℕ
  effective_limit r =
      if r.config.adaptive_limits_enabled
      then r.current_stream_limit
      else r.config.max_active_streams

  unfoldable pub new_handle :
      StreamRegistry F → String → Signal → Option ℕ → Option String → ℕ → StreamHandle F
  new_handle r stream_id signal timeout model_id now = record {
    stream_id = stream_id;
    started_at = now;
    timeout = elim timeout [ none ↦ r.config.default_timeout | some t ↦ t ];
    has_signal = elim signal [ no_signal ↦ false | _ ↦ true ];
    promise = r.total_streams_created;
    chunk_count = 0;
    stats = none;
    completed = false;
    first_token_at = none;
    last_chunk_at = none;
    unacked_chunks = 0;
    blocked_since = none;
    model_id = model_id;
  }

  -- The handle is entered, with its timer and its abort handler.
  unfoldable pub admit : StreamHandle F → StreamRegistry F → StreamRegistry F
  admit h r = record r {
    abort_handlers =
        if h.has_signal then put h.promise h.stream_id r.abort_handlers else r.abort_handlers;
    timers = put h.promise h.stream_id r.timers;
    streams = put h.stream_id h r.streams;
  }

  -- What the promise's executor does.
  unfoldable pub enter : Signal → StreamHandle F → StreamRegistry F → StreamRegistry F
  enter aborted_signal h r = settle h.promise (rejected aborted_before_registration) r
  enter no_signal h r = admit h r
  enter live_signal h r = admit h r

  unfoldable pub register :
      StreamRegistry F
      → String
      → Signal
      → Option ℕ
      → Option String
      → ℕ
      → StreamRegistry F × RegisterResult
  register r stream_id signal timeout model_id now =
      let h = new_handle r stream_id signal timeout model_id now in
      let r' = record r { total_streams_created = r.total_streams_created + 1 } in
      if has stream_id r.streams
      then (r, already_registered)
      else if leb (effective_limit r) (length r.streams)
      then (r, limit_exceeded (effective_limit r))
      else (enter signal h r', promised h.promise)
