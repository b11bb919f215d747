-- ===== src/Worker/Batcher.antt =====
-- The continuous batcher of src/distributed/worker/continuous-batcher.ts, for requests of any type `Q`
-- with results of any type `A`. A promise is the number of its request. The executor is awaited, so
-- a batch ends by an event, with the list of its results or with a failure; `processing` holds the
-- batch that is being executed. The delay of the timer and the average batch size, quotients of
-- floats, are left out.
pub mod Ledger
pub mod Live
mod Tests
use mlx_serving.Prelude.{
  ℕ, zero, suc, ◌+◌, ◌-◌, ◌*◌, min, max, Bool, true, false, ◌||◌, Option, none, some, List, [], ◌∷◌,
  ◌++◌, if◌then◌else◌, leb, ltb, length, get_elem?, is_some,
}

pub record BatcherConfig : Type 0 where
  pub min_batch_size : ℕ
  pub max_batch_size : ℕ
  pub batch_timeout_ms : ℕ
  pub adaptive_timeout : Bool

-- `none` is the smallest size before the first batch, infinity.
pub record BatchStats : Type 0 where
  pub total_batches : ℕ
  pub total_requests : ℕ
  pub min_batch_size : Option ℕ
  pub max_batch_size : ℕ

-- A result is missing where the executor returns too few.
pub data Outcome (A : Type 0) : Type 0 where
  resolved : Option A → Outcome A
  batch_failed shutting_down : Outcome A

pub record ContinuousBatcher (Q A : Type 0) : Type 0 where
  pub config : BatcherConfig
  pub queue : List (ℕ × Q)
  pub batch_timer : Bool
  pub immediates : ℕ
  pub processing : Option (List (ℕ × Q))
  pub stats : BatchStats
  pub created : ℕ
  pub settled : List (ℕ × Outcome A)

unfoldable pub take {ℓ} : {X : Type ℓ} → ℕ → List X → List X
take zero xs = []
take (suc n) [] = []
take (suc n) (x ∷ xs) = x ∷ take n xs

unfoldable pub drop {ℓ} : {X : Type ℓ} → ℕ → List X → List X
drop zero xs = xs
drop (suc n) [] = []
drop (suc n) (x ∷ xs) = drop n xs

unfoldable pub update_stats : ℕ → BatchStats → BatchStats
update_stats size stats = record {
  total_batches = stats.total_batches + 1;
  total_requests = stats.total_requests + size;
  min_batch_size = elim stats.min_batch_size [ none ↦ some size | some n ↦ some (min n size) ];
  max_batch_size = max stats.max_batch_size size;
}

module _ {Q A : Type 0} where
  unfoldable pub new : BatcherConfig → ContinuousBatcher Q A
  new config = record {
    config = config;
    queue = [];
    batch_timer = false;
    immediates = 0;
    processing = none;
    stats = record {
      total_batches = 0;
      total_requests = 0;
      min_batch_size = none;
      max_batch_size = 0;
    };
    created = 0;
    settled = [];
  }

  -- Up to the call of the executor.
  unfoldable pub process_batch : ContinuousBatcher Q A → ContinuousBatcher Q A
  process_batch b =
      let b' = record b { batch_timer = false } in
      let size = min (length b.queue) b.config.max_batch_size in
      if is_some b.processing || leb (length b.queue) 0
      then b'
      else record b' { processing = some (take size b.queue); queue = drop size b.queue }

  unfoldable pub enqueue : ContinuousBatcher Q A → Q → ContinuousBatcher Q A
  enqueue b request =
      let b' = record b { queue = b.queue ++ (b.created, request) ∷ []; created = b.created + 1 } in
      if leb b.config.max_batch_size (length b'.queue)
      then process_batch b'
      else if b.batch_timer
      then b'
      else record b' { batch_timer = true }

  -- Each promise of the batch gets the result at its place.
  unfoldable pub answers : List (ℕ × Q) → List A → List (ℕ × Outcome A)
  answers [] results = []
  answers ((id, request) ∷ batch) [] = (id, resolved none) ∷ answers batch []
  answers ((id, request) ∷ batch) (a ∷ results) = (id, resolved (some a)) ∷ answers batch results

  unfoldable pub reject_all : Outcome A → List (ℕ × Q) → List (ℕ × Outcome A)
  reject_all outcome [] = []
  reject_all outcome ((id, request) ∷ items) = (id, outcome) ∷ reject_all outcome items

  -- The `finally` of `processBatch`.
  unfoldable pub finish : ContinuousBatcher Q A → ContinuousBatcher Q A
  finish b = record b {
    processing = none;
    immediates = if ltb 0 (length b.queue) then b.immediates + 1 else b.immediates;
  }

  -- The executor returns.
  unfoldable pub complete : ContinuousBatcher Q A → List A → ContinuousBatcher Q A
  complete b results = elim b.processing [
    | none ↦ b
    | some batch ↦ finish (record b {
      settled = b.settled ++ answers batch results;
      stats = update_stats (length batch) b.stats;
    })
  ]

  -- The executor throws.
  unfoldable pub fail : ContinuousBatcher Q A → ContinuousBatcher Q A
  fail b = elim b.processing [
    | none ↦ b
    | some batch ↦ finish (record b { settled = b.settled ++ reject_all batch_failed batch })
  ]

  unfoldable pub clear : ContinuousBatcher Q A → ContinuousBatcher Q A
  clear b = record b {
    batch_timer = false;
    settled = b.settled ++ reject_all shutting_down b.queue;
    queue = [];
  }

  -- The timer that is set fires, and so does an immediate that was set.
  unfoldable pub fire_timer : ContinuousBatcher Q A → ContinuousBatcher Q A
  fire_timer b = if b.batch_timer then process_batch b else b

  unfoldable pub fire_immediate : ContinuousBatcher Q A → ContinuousBatcher Q A
  fire_immediate b =
      if ltb 0 b.immediates then process_batch (record b { immediates = b.immediates - 1 }) else b

pub data Event (Q A : Type 0) : Type 0 where
  enqueues : Q → Event Q A
  completes : List A → Event Q A
  fails clears timer_fires immediate_fires : Event Q A

module _ {Q A : Type 0} where
  unfoldable pub step : ContinuousBatcher Q A → Event Q A → ContinuousBatcher Q A
  step b (enqueues request) = enqueue b request
  step b (completes results) = complete b results
  step b fails = fail b
  step b clears = clear b
  step b timer_fires = fire_timer b
  step b immediate_fires = fire_immediate b

  unfoldable pub run : ContinuousBatcher Q A → List (Event Q A) → ContinuousBatcher Q A
  run b [] = b
  run b (e ∷ events) = run (step b e) events
