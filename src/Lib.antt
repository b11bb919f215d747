-- ===== src/Lib.antt =====
-- Verification of mlx-serving, a server for language models in TypeScript.
--
-- Parts and their files. A controller takes requests and hands them to workers; a worker queues the
-- requests that it is given, the core runs them against a Python runtime, and the bridge hands back
-- the streams of tokens.
--   Core/CircuitBreaker.antt   src/core/circuit-breaker.ts, which guards the runtime
--   Core/RequestQueue.antt     src/core/request-queue.ts, which limits the running requests
--   Core/ObjectPool.antt       src/core/object-pool.ts, which keeps objects for reuse
--   Core/Deduplicator.antt     src/core/request-deduplicator.ts, which shares promises of equal requests
--   Core/PromptCache.antt      src/core/prompt-cache.ts, which keeps responses
--   Bridge/ChunkPool.antt      the pool of chunks in src/bridge/stream-registry.ts
--   Bridge/Streams.antt        src/bridge/stream-registry.ts, which follows the streams of tokens
--   Worker/Queue.antt          src/distributed/worker/request-queue.ts, with its backpressure
--   Worker/Batcher.antt        src/distributed/worker/continuous-batcher.ts, which forms batches
--   Scheduling/Priority.antt   src/scheduling/PriorityScheduler.ts, with its queues by priority
--   Controller/Workers.antt    src/distributed/controller/worker-registry.ts
--   Controller/Sessions.antt   src/distributed/controller/session-registry.ts
--   Controller/Balancer.antt   src/distributed/controller/load-balancers/smart-load-balancer.ts
--   Controller/Breaker.antt    src/distributed/controller/circuit-breaker.ts
--   Controller/Retry.antt      src/distributed/controller/retry-handler.ts
--   Controller/Dispatch.antt   the routing in src/distributed/controller/controller-node.ts
-- The load balancer reads entries of the worker registry and keeps a session registry. The
-- controller filters the registered workers by their circuit breakers, takes out those that the
-- retry handler excludes, and has the load balancer select one: that is the executor of the retry
-- handler. Prelude.antt and JsMap.antt are shared: tests and lists over native numbers, and `Map` and `Set` with their laws.
--
-- Correspondence. An object is a record of its fields, and a method is a function by the source's
-- name in snake_case, from the object to the object after the call, with the answer beside it. An
-- exception or an error object is a constructor of the answer. `Map` and `Set` are the lists
-- `JsMap` in the order of insertion. A `put` writes to the entry that is in place, as `Map.set`
-- does and as an assignment to a field of the entry does. Times, counts and limits are natural
-- numbers, and the clock is an argument `now`. A method that waits is cut where it waits, and a
-- timer is an event of the environment; runs are lists of such calls and events, in any order
-- unless a theorem says otherwise. The objects of the object pool are references into a heap, which
-- its clients write to as well. The file of the prompt cache is what stands at its path, and
-- `JSON.stringify` and `JSON.parse` are parameters, of which a theorem supposes that the second
-- reads what the first writes of cache entries. Each file's opening comment names what it does not
-- look at.
--
-- Fuel. Three loops take fuel. `execute_with_retry` gives the retry loop `maxRetries + 1` rounds, and
-- a theorem below shows that it never runs out. `store` gives the eviction loop of the prompt cache
-- one round more than there are entries, which is enough, since each round removes one: the
-- theorem on `store` has the loop succeed. `schedule` gives `schedule_next` one round more than there
-- are requests in the queues, which is enough by the theorem on `schedule_next`. Every other loop is
-- structural.
--
-- Not modelled: logging, event listeners, transports (HTTP, WebSocket, NATS, pipes to Python), the
-- failures of the file system, quotients of floats (kept as pairs), and the parts of the server not
-- listed above. A count in the source is a double, which is exact up to 2^53; the model's are unbounded.
pub mod Prelude
pub mod JsMap
pub mod Controller
pub mod Worker
pub mod Bridge
pub mod Scheduling
pub mod Core
