-- ===== src/Core/PromptCache.antt =====
-- src/core/prompt-cache.ts. The responses are of any type `R`; `json_length` is the length of what
-- `JSON.stringify` makes of one, and `none` where that throws. Fingerprints, which SHA-256 makes,
-- are texts. The readings of the clock within one method are taken as one, `now`. The timers are
-- calls of `cleanup` and `save` that the environment makes; the failures of the file system, quotients
-- of floats and logging are left out.
pub mod Disk
pub mod Accounts
pub mod Room
pub mod Runs
pub mod Lru
pub mod Recency
pub mod Persistence
pub mod Restart
mod Tests
use mlx_serving.Prelude.{
  ℕ, zero, suc, ◌+◌, ◌-◌, ◌*◌, Bool, true, false, ◌||◌, Option, none, some, List, [], ◌∷◌, String,
  ◌==◌, string_eq, if◌then◌else◌, leb, ltb, length,
}
use mlx_serving.JsMap.{JsMap, get, put, delete}

pub record PersistenceConfig : Type 0 where
  pub enabled : Bool
  pub path : String

pub record PromptCacheConfig : Type 0 where
  pub enabled : Bool
  pub max_entries : ℕ
  pub max_total_tokens : ℕ
  pub max_total_bytes : ℕ
  pub ttl_ms : ℕ
  pub persistence : Option PersistenceConfig

pub record CacheEntry (R : Type 0) : Type 0 where
  pub response : R
  pub tokens : ℕ
  pub bytes : ℕ
  pub created_at : ℕ
  pub expires_at : ℕ
  pub last_accessed_at : ℕ
  pub access_count : ℕ

pub record PromptCache (R : Type 0) : Type 0 where
  pub config : PromptCacheConfig
  pub cache : JsMap String (CacheEntry R)
  pub total_tokens : ℕ
  pub total_bytes : ℕ
  pub hits : ℕ
  pub misses : ℕ
  pub evictions : ℕ
  pub ttl_evictions : ℕ

-- The constructor, without a file to load.
unfoldable pub new : {R : Type 0} → PromptCacheConfig → PromptCache R
new config = record {
  config = config;
  cache = [];
  total_tokens = 0;
  total_bytes = 0;
  hits = 0;
  misses = 0;
  evictions = 0;
  ttl_evictions = 0;
}

abbrev pub max_single_entry_bytes : ℕ
max_single_entry_bytes = 10 * 1024 * 1024

abbrev pub is_expired : {R : Type 0} → ℕ → CacheEntry R → Bool
is_expired now entry = leb entry.expires_at now

-- An optional length of text as `estimateBytes` counts it.
abbrev pub bytes_of : Option ℕ → ℕ
bytes_of none = 1000
bytes_of (some n) = n * 2 + 100

module _ {R : Type 0} where
  -- An entry is deleted, and what it holds is taken off the totals.
  unfoldable pub drop_entry : String → CacheEntry R → PromptCache R → PromptCache R
  drop_entry key entry c = record c {
    cache = delete key c.cache;
    total_tokens = c.total_tokens - entry.tokens;
    total_bytes = c.total_bytes - entry.bytes;
  }

  -- `get` of the class.
  unfoldable pub lookup : PromptCache R → String → ℕ → PromptCache R × Option R
  lookup c fingerprint now =
      if c.config.enabled
      then elim (get fingerprint c.cache) [
        | none ↦ (record c { misses = c.misses + 1 }, none)
        | some entry ↦
            if is_expired now entry
            then (
              record (drop_entry fingerprint entry c) {
                ttl_evictions = c.ttl_evictions + 1;
                misses = c.misses + 1;
              },
              none,
            )
            else (
              record c {
                cache =
                    put fingerprint
                      (record entry {
                        last_accessed_at = now;
                        access_count = entry.access_count + 1;
                      })
                      (delete fingerprint c.cache);
                hits = c.hits + 1;
              },
              some entry.response,
            )
      ]
      else (c, none)

  -- An empty first key is false to JavaScript's `!`.
  unfoldable pub evict_lru : PromptCache R → PromptCache R × Bool
  evict_lru c = elim c.cache [
    | [] ↦ (c, false)
    | (key, entry) ∷ rest ↦
        if key == ""
        then (c, false)
        else (record (drop_entry key entry c) { evictions = c.evictions + 1 }, true)
  ]

  -- The condition of the loop that evicts entries until a new one has space.
  unfoldable pub is_over : PromptCache R → ℕ → ℕ → Bool
  is_over c tokens bytes =
      leb c.config.max_entries (length c.cache)
      || ltb c.config.max_total_tokens (c.total_tokens + tokens)
      || ltb c.config.max_total_bytes (c.total_bytes + bytes)

  -- The loop, on fuel; `false` where nothing could be evicted.
  unfoldable pub make_room : ℕ → PromptCache R → ℕ → ℕ → PromptCache R × Bool
  make_room zero c tokens bytes = (c, false)
  make_room (suc fuel) c tokens bytes =
      let (c', evicted) = evict_lru c in
      let rest = make_room fuel c' tokens bytes in
      if is_over c tokens bytes then (if evicted then rest else (c', false)) else (c, true)

  unfoldable pub forget : PromptCache R → String → PromptCache R
  forget c fingerprint = elim (get fingerprint c.cache) [
    | none ↦ c
    | some existing ↦ drop_entry fingerprint existing c
  ]

  -- The new entry, with the estimate of its tokens, which is always 0.
  unfoldable pub new_entry : PromptCacheConfig → R → ℕ → ℕ → CacheEntry R
  new_entry config response bytes now = record {
    response = response;
    tokens = 0;
    bytes = bytes;
    created_at = now;
    expires_at = now + config.ttl_ms;
    last_accessed_at = now;
    access_count = 0;
  }

  unfoldable pub insert : PromptCache R → String → CacheEntry R → PromptCache R
  insert c fingerprint entry = record c {
    cache = put fingerprint entry c.cache;
    total_tokens = c.total_tokens + entry.tokens;
    total_bytes = c.total_bytes + entry.bytes;
  }

  -- `set` of the class.
  unfoldable pub store : (R → Option ℕ) → PromptCache R → String → R → ℕ → PromptCache R
  store json_length c fingerprint response now =
      let entry = new_entry c.config response (bytes_of (json_length response)) now in
      let c' = forget c fingerprint in
      let (c'', room) = make_room (suc (length c'.cache)) c' entry.tokens entry.bytes in
      if c.config.enabled
      then (if ltb max_single_entry_bytes entry.bytes
          then c
          else if room
          then insert c'' fingerprint entry
          else c'')
      else c

  -- The loop of `cleanup`, over the entries that the map had when it began.
  unfoldable pub expire : ℕ → JsMap String (CacheEntry R) → PromptCache R → PromptCache R
  expire now [] c = c
  expire now ((key, entry) ∷ entries) c = expire now entries (
      if is_expired now entry
      then record (drop_entry key entry c) { ttl_evictions = c.ttl_evictions + 1 }
      else c)

  unfoldable pub cleanup : PromptCache R → ℕ → PromptCache R
  cleanup c now = expire now c.cache c

  -- `clear` keeps the statistics.
  unfoldable pub clear : PromptCache R → PromptCache R
  clear c = record c { cache = []; total_tokens = 0; total_bytes = 0 }
