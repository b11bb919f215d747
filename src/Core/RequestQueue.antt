-- ===== src/Core/RequestQueue.antt =====
-- src/core/request-queue.ts. What a request carries besides its id and its time is not looked at.
-- The effects are recorded: `started` has the ids whose executor was called, `settled` those whose
-- promise was resolved or rejected, each in order. `randomUUID()` and `Date.now()` are arguments. A
-- finished executor and a timeout are events that the environment brings, at any time and for any
-- id, which covers timers that were cleared; an executor makes no call on the queue before it first
-- waits. The limit `Infinity` is `none`. Logging is left out.
pub mod Invariant
pub mod Preserved
pub mod Ledger
pub mod Fifo
mod Tests
use mlx_serving.Prelude.{
  ℕ, zero, suc, ◌+◌, Bool, true, false, ◌&&◌, Option, none, some, List, [], ◌∷◌, ◌++◌, String, ◌==◌,
  string_eq, if◌then◌else◌, ltb, eqb, length,
}
use mlx_serving.Prelude.Int.{ℤ, pos, negsuc}
use mlx_serving.JsMap.{JsMap, get, put, delete, has, keys}

pub record QueuedRequest : Type 0 where
  pub id : String
  pub timestamp : ℕ

pub data Settlement : Type 0 where
  resolved rejected timed_out cancelled : Settlement

pub record RequestQueue : Type 0 where
  pub max_concurrent : Option ℕ
  pub request_timeout_ms : ℕ
  pub pending : JsMap String QueuedRequest
  pub active : JsMap String QueuedRequest
  pub queue : List QueuedRequest
  pub started : List String
  pub settled : List (String × Settlement)

-- `configured > 0 ? configured : Number.POSITIVE_INFINITY`.
unfoldable pub limit_of : ℤ → Option ℕ
limit_of (pos zero) = none
limit_of (pos (suc n)) = some (suc n)
limit_of (negsuc n) = none

abbrev pub or_default {ℓ} : {A : Type ℓ} → Option A → A → A
or_default none d = d
or_default (some a) d = a

-- The constructor, for a `maxConcurrent` that is an integer or absent.
unfoldable pub new : Option ℤ → Option ℕ → RequestQueue
unfolding limit_of
new max_concurrent request_timeout_ms = record {
  max_concurrent = limit_of (or_default max_concurrent (pos 0));
  request_timeout_ms = or_default request_timeout_ms 30000;
  pending = [];
  active = [];
  queue = [];
  started = [];
  settled = [];
}

-- `n < this.maxConcurrent`.
abbrev pub below : Option ℕ → ℕ → Bool
below none n = true
below (some m) n = ltb n m

-- A request that was shifted off the queue becomes active, and its executor is called.
unfoldable pub activate : QueuedRequest → RequestQueue → RequestQueue
activate request q = record q {
  pending = delete request.id q.pending;
  active = put request.id request q.active;
  started = q.started ++ request.id ∷ [];
}

-- The loop, with the queue as its first argument.
unfoldable pub process_from : List QueuedRequest → RequestQueue → RequestQueue
process_from [] q = record q { queue = [] }
process_from (request ∷ rest) q =
    let after = process_from rest (if has request.id q.pending then activate request q else q) in
    if below q.max_concurrent (length q.active) then after else record q { queue = request ∷ rest }

unfoldable pub process_queue : RequestQueue → RequestQueue
process_queue q = process_from q.queue q

unfoldable pub execute : RequestQueue → String → ℕ → RequestQueue
execute q id now =
    let request : QueuedRequest = record { id = id; timestamp = now } in
    process_queue (record q { pending = put id request q.pending; queue = q.queue ++ request ∷ [] })

-- The end of an active request: it is deleted, its promise settles, and the queue moves on.
unfoldable pub settle_active : RequestQueue → String → Settlement → RequestQueue
settle_active q id how =
    process_queue (record q { active = delete id q.active; settled = q.settled ++ (id, how) ∷ [] })

-- The continuation of `executeRequest`, when the executor's promise has settled.
unfoldable pub finish : RequestQueue → String → Bool → RequestQueue
finish q id ok =
    if has id q.active then settle_active q id (if ok then resolved else rejected) else q

unfoldable pub handle_timeout : RequestQueue → String → RequestQueue
handle_timeout q id = if has id q.active then settle_active q id timed_out else q

-- `findIndex` and `splice`.
unfoldable pub remove_first : String → List QueuedRequest → List QueuedRequest
remove_first id [] = []
remove_first id (request ∷ rest) = if request.id == id then rest else request ∷ remove_first id rest

-- The branch of `cancel` for a pending request.
unfoldable pub cancel_pending : RequestQueue → String → RequestQueue
unfolding remove_first
cancel_pending q id = record q {
  pending = delete id q.pending;
  queue = remove_first id q.queue;
  settled = q.settled ++ (id, cancelled) ∷ [];
}

unfoldable pub cancel : RequestQueue → String → RequestQueue × Bool
cancel q id =
    if has id q.pending
    then (cancel_pending q id, true)
    else if has id q.active
    then (settle_active q id cancelled, true)
    else (q, false)

-- What a check of `drain` finds at a time: it is done, it has timed out, or it goes on.
pub data DrainCheck : Type 0 where
  drained drain_timeout waits : DrainCheck

unfoldable pub drain_check : RequestQueue → ℕ → ℕ → ℕ → DrainCheck
drain_check q start_time timeout_ms now =
    if eqb (length q.active) 0 && eqb (length q.queue) 0
    then drained
    else if ltb (start_time + timeout_ms) now
    then drain_timeout
    else waits

unfoldable pub is_empty : RequestQueue → Bool
is_empty q = eqb (length q.pending) 0 && eqb (length q.active) 0

-- The loop of `clearPending`.
unfoldable pub cancel_all : List String → RequestQueue → RequestQueue
cancel_all [] q = q
cancel_all (id ∷ ids) q = cancel_all ids (cancel q id).0

unfoldable pub clear_pending : RequestQueue → RequestQueue
clear_pending q = cancel_all (keys q.pending) q

pub data Event : Type 0 where
  executes : String → ℕ → Event
  finishes : String → Bool → Event
  times_out cancels : String → Event
  clears_pending : Event

unfoldable pub step : RequestQueue → Event → RequestQueue
step q (executes id now) = execute q id now
step q (finishes id ok) = finish q id ok
step q (times_out id) = handle_timeout q id
step q (cancels id) = (cancel q id).0
step q clears_pending = clear_pending q

unfoldable pub run : RequestQueue → List Event → RequestQueue
run q [] = q
run q (e ∷ es) = run (step q e) es
