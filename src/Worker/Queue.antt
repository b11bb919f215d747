-- ===== src/Worker/Queue.antt =====
-- src/distributed/worker/request-queue.ts. The queue never looks into a request, so the requests
-- are of any type. The `Map` from priorities has its three keys from the start and never another:
-- it is three fields. `Date.now()` is the argument `now`. The average wait, a quotient of
-- floats, is kept as the pair of its dividend and its divisor. Logging is left out.
pub mod Bounds
pub mod Order
pub mod Refine
mod Tests
use mlx_serving.Prelude.{
  ℕ, ◌+◌, Bool, true, false, Option, none, some, List, [], ◌∷◌, ◌++◌, if◌then◌else◌, leb, length,
}
use mlx_serving.Prelude.Int.{ℤ, pos, sub_ℕ, ◌+ℤ◌}

pub data RequestPriority : Type 0 where
  high medium low : RequestPriority

pub record QueuedRequest (R : Type 0) : Type 0 where
  pub request : R
  pub priority : RequestPriority
  pub enqueued_at : ℕ

pub data BackpressureStrategy : Type 0 where
  reject drop_low_priority : BackpressureStrategy

pub record QueueConfig : Type 0 where
  pub max_depth : ℕ
  pub backpressure_strategy : BackpressureStrategy

pub record QueueStats : Type 0 where
  pub total_enqueued : ℕ
  pub total_dequeued : ℕ
  pub total_rejected : ℕ
  pub total_dropped : ℕ
  pub current_depth : ℕ
  pub avg_wait_time_ms : ℤ × ℕ

pub record RequestQueue (R : Type 0) : Type 0 where
  pub config : QueueConfig
  pub high_queue : List (QueuedRequest R)
  pub medium_queue : List (QueuedRequest R)
  pub low_queue : List (QueuedRequest R)
  pub stats : QueueStats
  pub total_wait_time : ℤ

-- The constructor, with the initial values of the fields.
unfoldable pub new : {R : Type 0} → QueueConfig → RequestQueue R
new config = record {
  config = config;
  high_queue = [];
  medium_queue = [];
  low_queue = [];
  stats = record {
    total_enqueued = 0;
    total_dequeued = 0;
    total_rejected = 0;
    total_dropped = 0;
    current_depth = 0;
    avg_wait_time_ms = (pos 0, 0);
  };
  total_wait_time = pos 0;
}

module _ {R : Type 0} where
  unfoldable pub get_depth : RequestQueue R → ℕ
  get_depth q = length q.high_queue + length q.medium_queue + length q.low_queue

  unfoldable pub is_full : RequestQueue R → Bool
  unfolding get_depth
  is_full q = leb q.config.max_depth (get_depth q)

  -- `this.queues.get(priority)!.push(item)`.
  unfoldable pub push : RequestPriority → QueuedRequest R → RequestQueue R → RequestQueue R
  push high x q = record q { high_queue = q.high_queue ++ x ∷ [] }
  push medium x q = record q { medium_queue = q.medium_queue ++ x ∷ [] }
  push low x q = record q { low_queue = q.low_queue ++ x ∷ [] }

  unfoldable pub drop_low_priority_request : RequestQueue R → RequestQueue R × Bool
  drop_low_priority_request q = elim q.low_queue [
    | [] ↦ (q, false)
    | dropped ∷ rest ↦ (
      record q {
        low_queue = rest;
        stats = record (q.stats) { total_dropped = q.stats.total_dropped + 1 };
      },
      true,
    )
  ]

  -- `this.stats.totalRejected++; return false`.
  unfoldable pub refuse : RequestQueue R → RequestQueue R × Bool
  refuse q =
      (record q { stats = record (q.stats) { total_rejected = q.stats.total_rejected + 1 } }, false)

  -- The part of `enqueue` behind the test of a full queue.
  unfoldable pub admit : RequestQueue R → R → RequestPriority → ℕ → RequestQueue R × Bool
  unfolding push get_depth
  admit q request priority now =
      let q' =
        push priority (record { request = request; priority = priority; enqueued_at = now }) q in
      (
        record q' {
          stats = record (q'.stats) {
            total_enqueued = q'.stats.total_enqueued + 1;
            current_depth = get_depth q';
          };
        },
        true,
      )

  unfoldable pub enqueue : RequestQueue R → R → RequestPriority → ℕ → RequestQueue R × Bool
  enqueue q request priority now =
      if is_full q
      then elim q.config.backpressure_strategy [
        | reject ↦ refuse q
        | drop_low_priority ↦
            let (q', dropped) = drop_low_priority_request q in
            if dropped then admit q' request priority now else refuse q'
      ]
      else admit q request priority now

  -- What `dequeue` does with the item that it has shifted off a queue.
  unfoldable pub deliver : RequestQueue R → QueuedRequest R → ℕ → RequestQueue R × Option R
  unfolding get_depth ◌+ℤ◌
  deliver q item now =
      let waited = q.total_wait_time +ℤ sub_ℕ now item.enqueued_at in
      (
        record q {
          stats = record (q.stats) {
            total_dequeued = q.stats.total_dequeued + 1;
            current_depth = get_depth q;
            avg_wait_time_ms = (waited, q.stats.total_dequeued + 1);
          };
          total_wait_time = waited;
        },
        some item.request,
      )

  -- The loop over the priorities, highest first.
  unfoldable pub dequeue : RequestQueue R → ℕ → RequestQueue R × Option R
  unfolding deliver
  dequeue q now = elim q.high_queue [
    | item ∷ rest ↦ deliver (record q { high_queue = rest }) item now
    | [] ↦ elim q.medium_queue [
      | item ∷ rest ↦ deliver (record q { medium_queue = rest }) item now
      | [] ↦ elim q.low_queue [
        | item ∷ rest ↦ deliver (record q { low_queue = rest }) item now
        | [] ↦ (q, none)
      ]
    ]
  ]

  -- The statistics stay as they are.
  unfoldable pub clear : RequestQueue R → RequestQueue R
  clear q = record q { high_queue = []; medium_queue = []; low_queue = [] }

  unfoldable pub get_stats : RequestQueue R → QueueStats
  unfolding get_depth
  get_stats q = record (q.stats) { current_depth = get_depth q }
