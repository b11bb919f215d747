-- ===== src/Worker.antt =====
-- What a worker of the cluster is made of, of src/distributed/worker.
pub mod Batcher
pub mod Queue
