-- ===== src/Core/Deduplicator.antt =====
-- src/core/request-deduplicator.ts. Fingerprints, which SHA-256 makes, are texts, and a promise is a
-- number. The handler that `set` puts on a promise is `reject`, an event of the environment for the
-- fingerprint that the promise was set with. Counting payloads that are too large, quotients of
-- floats and logging are left out; the timer is the environment calling `cleanup_expired`.
pub mod Bounded
pub mod Sharing
mod Tests
use mlx_serving.Prelude.{
  ℕ, zero, suc, ◌+◌, Bool, true, false, Option, none, some, List, [], ◌∷◌, String, ◌==◌, string_eq,
  if◌then◌else◌, leb, length,
}
use mlx_serving.JsMap.{JsMap, get, put, delete, sweep}

pub record RequestDeduplicatorConfig : Type 0 where
  pub enabled : Bool
  pub ttl_ms : ℕ
  pub max_entries : ℕ

pub record CacheEntry : Type 0 where
  pub promise : ℕ
  pub expires_at : ℕ
  pub fingerprint : String
  pub created_at : ℕ

pub record RequestDeduplicator : Type 0 where
  pub config : RequestDeduplicatorConfig
  pub cache : JsMap String CacheEntry
  pub hits : ℕ
  pub misses : ℕ
  pub evictions : ℕ
  pub rejections : ℕ

unfoldable pub new : RequestDeduplicatorConfig → RequestDeduplicator
new config = record {
  config = config;
  cache = [];
  hits = 0;
  misses = 0;
  evictions = 0;
  rejections = 0;
}

abbrev pub is_expired : ℕ → CacheEntry → Bool
is_expired now entry = leb entry.expires_at now

-- `get` of the class.
unfoldable pub lookup : RequestDeduplicator → String → ℕ → RequestDeduplicator × Option ℕ
lookup d fingerprint now =
    if d.config.enabled
    then elim (get fingerprint d.cache) [
      | none ↦ (record d { misses = d.misses + 1 }, none)
      | some entry ↦
          if is_expired now entry
          then (
            record d {
              cache = delete fingerprint d.cache;
              evictions = d.evictions + 1;
              misses = d.misses + 1;
            },
            none,
          )
          else (record d { hits = d.hits + 1 }, some entry.promise)
    ]
    else (d, none)

-- An empty first key is false to JavaScript, and is not evicted.
unfoldable pub evict_oldest : RequestDeduplicator → RequestDeduplicator
evict_oldest d = elim d.cache [
  | [] ↦ d
  | (key, entry) ∷ rest ↦
      if key == "" then d else record d { cache = delete key d.cache; evictions = d.evictions + 1 }
]

-- `set` of the class.
unfoldable pub store : RequestDeduplicator → String → ℕ → ℕ → RequestDeduplicator
store d fingerprint promise now =
    let d' = if leb d.config.max_entries (length d.cache) then evict_oldest d else d in
    let entry : CacheEntry = record {
      promise = promise;
      expires_at = now + d.config.ttl_ms;
      fingerprint = fingerprint;
      created_at = now;
    } in
    if d.config.enabled then record d' { cache = put fingerprint entry d'.cache } else d

-- The promise that was set is rejected.
unfoldable pub reject : RequestDeduplicator → String → RequestDeduplicator
reject d fingerprint = record d {
  cache = delete fingerprint d.cache;
  rejections = d.rejections + 1;
}

unfoldable pub cleanup_expired : RequestDeduplicator → ℕ → RequestDeduplicator
cleanup_expired d now =
    let (cache, evicted) = sweep (is_expired now) d.cache in
    record d { cache = cache; evictions = d.evictions + evicted }

unfoldable pub clear : RequestDeduplicator → RequestDeduplicator
clear d = record d { cache = [] }

pub data Call : Type 0 where
  gets rejects : String → Call
  sets : String → ℕ → Call
  cleans clears : Call

unfoldable pub step : RequestDeduplicator → ℕ → Call → RequestDeduplicator
step d now (gets fingerprint) = (lookup d fingerprint now).0
step d now (rejects fingerprint) = reject d fingerprint
step d now (sets fingerprint promise) = store d fingerprint promise now
step d now cleans = cleanup_expired d now
step d now clears = clear d

unfoldable pub run : RequestDeduplicator → List (ℕ × Call) → RequestDeduplicator
run d [] = d
run d ((now, call) ∷ calls) = run (step d now call) calls
