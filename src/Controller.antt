-- ===== src/Controller.antt =====
-- The controller of the cluster, src/distributed/controller: circuit breakers, sessions, workers,
-- the load balancer, retries and the routing of requests.
pub mod Breaker
pub mod Sessions
pub mod Workers
pub mod Balancer
pub mod Retry
pub mod Dispatch
