-- ===== src/Scheduling.antt =====
-- What decides the order of requests, of src/scheduling.
pub mod Priority
