-- ===== src/Bridge/Streams.antt =====
-- The stream registry of src/bridge/stream-registry.ts. Its clock, its thresholds of floats and the
-- answers of the adaptive governor are arguments. A promise is the number of the `register` that
-- made it, which is also the number of its timer and of its abort handler. Listeners make no calls
-- back into the registry, so that between a handle's `completed = true` and its removal no other
-- code runs, and the flag of a handle that is being removed is not written. `has_signal` stands
-- for the signal and its abort handler; `metricsExported`, which nothing reads, and the scheduler of
-- stale entries, which is told of an end besides, are left out. The timers of the pool,
-- of the metrics and of the limits are calls that the environment makes.
pub mod Types
pub mod Register
pub mod Chunks
pub mod Ends
pub mod Machine
pub mod Ledger
pub mod Timers
pub mod Orderly
pub mod Unmoved
pub mod Shutdown
pub mod Settled
pub mod Backpressure
pub mod Limits
mod Tests
