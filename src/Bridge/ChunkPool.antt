-- ===== src/Bridge/ChunkPool.antt =====
-- The chunk pool of src/bridge/stream-registry.ts. A log probability is of any type `F`.
use mlx_serving.Prelude.{
  ℕ, ◌+◌, Bool, Option, none, List, [], ◌∷◌, String, if◌then◌else◌, ltb, length,
}

-- A token's payload, of which `normalizeChunkTokens` makes the same record in both of its cases.
pub record NormalizedTokenPayload (F : Type 0) : Type 0 where
  pub token : String
  pub token_id : ℕ
  pub is_final : Bool
  pub logprob : Option F
  pub cumulative_text : Option String

pub record StreamChunk (F : Type 0) : Type 0 where
  pub stream_id : String
  pub payload : NormalizedTokenPayload F

pub record ChunkPool (F : Type 0) : Type 0 where
  pub pool : List (StreamChunk F)
  pub max_size : ℕ
  pub created_count : ℕ
  pub reused_count : ℕ

module _ {F : Type 0} where
  unfoldable pub new : ℕ → ChunkPool F
  new max_size = record { pool = []; max_size = max_size; created_count = 0; reused_count = 0 }

  -- The last chunk of the pool is taken, and each of its fields is written.
  unfoldable pub acquire :
      ChunkPool F → String → NormalizedTokenPayload F → ChunkPool F × StreamChunk F
  acquire p stream_id payload = elim p.pool [
    | [] ↦ (
      record p { created_count = p.created_count + 1 },
      record { stream_id = stream_id; payload = payload },
    )
    | chunk ∷ rest ↦ (
      record p { pool = rest; reused_count = p.reused_count + 1 },
      record chunk { stream_id = stream_id; payload = payload },
    )
  ]

  unfoldable pub release : ChunkPool F → StreamChunk F → ChunkPool F
  release p chunk =
      if ltb (length p.pool) p.max_size
      then record p {
        pool =
            record chunk {
              payload = record (chunk.payload) { logprob = none; cumulative_text = none };
            }
            ∷ p.pool;
      }
      else p

  unfoldable pub clear : ChunkPool F → ChunkPool F
  clear p = record p { pool = [] }
