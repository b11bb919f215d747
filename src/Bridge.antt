-- ===== src/Bridge.antt =====
-- The part of src/bridge that follows the streams of tokens.
pub mod ChunkPool
pub mod Streams
