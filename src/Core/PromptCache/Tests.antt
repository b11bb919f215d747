-- ===== src/Core/PromptCache/Tests.antt =====
-- Calls of a prompt cache for two entries, with responses that are texts' lengths.
use mlx_serving.Prelude.{
  filter_b, not, ◌⊎◌, sym, Option, ℕ, ◌≡◌, refl, true, none, some, List, [], ◌∷◌, String, string_eq,
  arith,
}
use mlx_serving.JsMap.{get, delete, put}
use mlx_serving.Core.PromptCache.{
  is_expired, PromptCacheConfig, PromptCache, CacheEntry, new, lookup, store, drop_entry, evict_lru,
  is_over, make_room, forget, new_entry, insert, expire, cleanup, bytes_of,
}
use mlx_serving.Core.PromptCache.Disk.{
  persistence_path, saved_entries, load_entries, save, shutdown, load, construct, Call, gets, sets,
  cleans, loads, step, run,
}
use mlx_serving.Core.PromptCache.Accounts.{IsValid}
use mlx_serving.Core.PromptCache.Runs.{run_cache-IsValid}
use mlx_serving.Core.PromptCache.Lru.{IsStorable, Stored, store-Stored, has_space}
use mlx_serving.Core.PromptCache.Recency.{touched, lookup_moves_last}
use mlx_serving.Core.PromptCache.Persistence.{Restored}
use mlx_serving.Core.PromptCache.Restart.{IsOn, IsOff, construct-save}

abbrev small_config : PromptCacheConfig
small_config = record {
  enabled = true;
  max_entries = 2;
  max_total_tokens = 100;
  max_total_bytes = 500;
  ttl_ms = 60;
  persistence = some (record { enabled = true; path = "cache.json" });
}

-- What `JSON.stringify` makes of entries: here, the list itself, unless it is empty.
abbrev File : Type 0
File = List (String × CacheEntry ℕ)

abbrev stringify : File → Option File
stringify [] = none
stringify (p ∷ ps) = some (p ∷ ps)

reads : (entries text : File) → stringify entries ≡ some text → some text ≡ some entries
reads [] text e = cc
reads (p ∷ ps) text e = sym e

abbrev calls : List (ℕ × Call ℕ File)
calls = (0, sets "a" 10) ∷ (5, sets "b" 20) ∷ (8, gets "a") ∷ (9, gets "z") ∷ []

abbrev used : PromptCache ℕ
used = run some some (new small_config) calls

program : Unit {0}
unfolding new run step lookup drop_entry evict_lru is_over make_room forget new_entry insert store
    expire cleanup persistence_path saved_entries load_entries save shutdown load construct
    has_space get put delete
program = tt

abbrev later_calls : List (ℕ × Call ℕ File)
later_calls = (65, cleans) ∷ (66, sets "c" 7) ∷ []

run_cache-IsValid_example :
    IsValid used
    × IsValid
        (run some some (construct some used.config (save stringify used none 62) 64) later_calls)
run_cache-IsValid_example =
    run_cache-IsValid some some stringify reads small_config calls later_calls 62 64
      (tt, (tt, (tt, (tt, tt)))) (tt, (tt, tt)) (omega arith)

used-IsValid : IsValid used
used-IsValid =
    (run_cache-IsValid some some stringify reads small_config calls [] 62 64
      (tt, (tt, (tt, (tt, tt)))) tt (omega arith)).0

used-IsStorable : IsStorable some used 15
unfolding program
used-IsStorable = record {
  valid = used-IsValid;
  enabled = refl;
  named = (refl, (refl, tt));
  small = omega arith;
  fits = refl;
}

-- "b" is the least recently used of the two.
store_evicts_b : get "b" (store some used "c" 15 10).cache ≡ none
unfolding program
store_evicts_b = refl

store-Stored_example :
    Stored used.config "c"
      (new_entry used.config 15 (bytes_of (some 15)) 10)
      used.cache
      (store some used "c" 15 10).cache
store-Stored_example = store-Stored some used "c" 15 10 used-IsStorable

-- Both entries are there, "b" first.
lookup_moves_last_example :
    ((lookup used "b" 40).1 ≡ some 20)
    × ((lookup used "b" 40).0.cache
        ≡ ("a", touched 8 (new_entry small_config 10 (bytes_of (some 10)) 0))
          ∷ ("b", touched 40 (new_entry small_config 20 (bytes_of (some 20)) 5))
          ∷ [])
    × ((evict_lru (lookup used "b" 40).0).0.cache
        ≡ ("b", touched 40 (new_entry small_config 20 (bytes_of (some 20)) 5)) ∷ [])
unfolding program touched
lookup_moves_last_example =
    lookup_moves_last used "b" (new_entry small_config 20 (bytes_of (some 20)) 5) []
      (("a", touched 8 (new_entry small_config 10 (bytes_of (some 10)) 0)) ∷ []) 40 refl
      used-IsValid (refl, (refl, tt)) refl (omega arith)

-- "a" has expired at 62, "b" has not.
construct-save_example :
    (IsOn used.config
      × (Restored used 62 (construct some used.config (save stringify used none 20) 62)
          ⊎ ((save stringify used none 20 ≡ none)
              × (stringify (filter_b (λ p. not (is_expired 20 p.1)) used.cache) ≡ none))))
    ⊎ (IsOff used.config
        × (save stringify used none 20 ≡ none)
        × (construct {R = ℕ} some used.config none 62 ≡ new used.config))
unfolding program
construct-save_example =
    construct-save stringify some reads used none 20 62 used-IsValid refl (omega arith)

restored :
    (get "a" (construct some used.config (save stringify used none 20) 62).cache ≡ none)
    × (get "b" (construct some used.config (save stringify used none 20) 62).cache
        ≡ some (new_entry small_config 20 (bytes_of (some 20)) 5))
    × ((shutdown stringify used none 20).1 ≡ save stringify used none 20)
unfolding program
restored = (refl, refl, refl)

-- A `load` that finds what the cache already holds counts it twice.
loaded_twice :
    (run some some used ((20, loads (save stringify used none 20)) ∷ [])).total_bytes ≡ 520
unfolding program
loaded_twice = refl
