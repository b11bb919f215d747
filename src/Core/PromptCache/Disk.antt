-- ===== src/Core/PromptCache/Disk.antt =====
-- The file of the prompt cache of src/core/prompt-cache.ts, the constructor, which loads it, and runs
-- of calls. The file is what stands at the configured path, if anything. `stringify` and `parse` are
-- `JSON.stringify` and `JSON.parse` between the entries with their keys and what a file holds; they
-- give `none` where they throw, or where what was parsed is not a list of such entries.
use mlx_serving.Prelude.{
  ℕ, not, ◌&&◌, Option, none, some, List, [], ◌∷◌, String, ◌==◌, string_eq, if◌then◌else◌,
}
use mlx_serving.JsMap.{JsMap}
use mlx_serving.Core.PromptCache.{
  PromptCacheConfig, CacheEntry, PromptCache, new, is_expired, insert, lookup, store, cleanup,
  clear, evict_lru,
}

-- `config.persistence?.enabled && config.persistence.path`.
unfoldable pub persistence_path : PromptCacheConfig → Option String
persistence_path config = elim config.persistence [
  | none ↦ none
  | some p ↦ if p.enabled && not (p.path == "") then some p.path else none
]

module _ {R : Type 0} where
  -- The entries that `save` writes.
  unfoldable pub saved_entries : ℕ → JsMap String (CacheEntry R) → List (String × CacheEntry R)
  saved_entries now [] = []
  saved_entries now ((key, entry) ∷ m) =
      let rest = saved_entries now m in if is_expired now entry then rest else (key, entry) ∷ rest

  -- The loop of `load`.
  unfoldable pub load_entries : List (String × CacheEntry R) → PromptCache R → ℕ → PromptCache R
  load_entries [] c now = c
  load_entries ((key, entry) ∷ entries) c now =
      load_entries entries (if is_expired now entry then c else insert c key entry) now

module _ {R D : Type 0} (stringify : List (String × CacheEntry R) → Option D) where
  -- The file after `save`, from the file before.
  unfoldable pub save : PromptCache R → Option D → ℕ → Option D
  save c file now = elim (persistence_path c.config) [
    | none ↦ file
    | some path ↦ elim (stringify (saved_entries now c.cache)) [
      | none ↦ file
      | some text ↦ some text
    ]
  ]

  -- The cache and the file after `shutdown`.
  unfoldable pub shutdown : PromptCache R → Option D → ℕ → PromptCache R × Option D
  shutdown c file now = (clear c, save c file now)

module _ {R D : Type 0} (parse : D → Option (List (String × CacheEntry R))) where
  unfoldable pub load : PromptCache R → Option D → ℕ → PromptCache R
  load c file now = elim (persistence_path c.config) [
    | none ↦ c
    | some path ↦ elim file [
      | none ↦ c
      | some text ↦ elim (parse text) [ none ↦ c | some entries ↦ load_entries entries c now ]
    ]
  ]

  -- The constructor.
  unfoldable pub construct : PromptCacheConfig → Option D → ℕ → PromptCache R
  construct config file now = if config.enabled then load (new config) file now else new config

-- The calls that change the cache; that of `load` with the file that it finds.
pub data Call (R D : Type 0) : Type 0 where
  gets : String → Call R D
  sets : String → R → Call R D
  cleans clears evicts : Call R D
  loads : Option D → Call R D

module _ {R D : Type 0} (json_length : R → Option ℕ)
    (parse : D → Option (List (String × CacheEntry R))) where
  unfoldable pub step : PromptCache R → ℕ → Call R D → PromptCache R
  step c now (gets fingerprint) = (lookup c fingerprint now).0
  step c now (sets fingerprint response) = store json_length c fingerprint response now
  step c now cleans = cleanup c now
  step c now clears = clear c
  step c now evicts = (evict_lru c).0
  step c now (loads file) = load parse c file now

  unfoldable pub run : PromptCache R → List (ℕ × Call R D) → PromptCache R
  run c [] = c
  run c ((now, call) ∷ calls) = run (step c now call) calls
