-- ===== src/Core/PromptCache/Runs.antt =====
-- The books of src/core/prompt-cache.ts through `cleanup` and through runs.
use mlx_serving.Prelude.{
  ◌≤◌, ◌≡◌, All, ap, sym, ◌∙◌, subst, false, none, some, if_both, if_false, Option-cases, ℕ, ◌+◌,
  refl, Option, List, [], ◌∷◌, String, string_eq, arith, Bool-cases, inl, inr,
}
use mlx_serving.JsMap.{JsMap, Distinct, AreIn, AreIn-self, AreIn-delete, All-keys_ne}
use mlx_serving.Core.PromptCache.{
  PromptCacheConfig, CacheEntry, PromptCache, new, is_expired, drop_entry, expire, cleanup, clear,
}
use mlx_serving.Core.PromptCache.Disk.{
  Call, gets, sets, cleans, clears, evicts, loads, step, run, save, load, construct,
  persistence_path,
}
use mlx_serving.Core.PromptCache.Restart.{construct-save}
use mlx_serving.Core.PromptCache.Accounts.{
  IsValid, drop_entry-IsValid, IsValid-stats, lookup-IsValid, evict_lru-IsValid,
}
use mlx_serving.Core.PromptCache.Room.{store-IsValid}

module _ {R : Type 0} where
  expire-IsValid :
      (now : ℕ) (entries : JsMap String (CacheEntry R)) (c : PromptCache R)
      → Distinct entries
      → AreIn entries c.cache
      → IsValid c
      → IsValid (expire now entries c)
  unfolding expire drop_entry
  expire-IsValid now [] c d a v = v
  expire-IsValid now ((k, x) ∷ es) c d a v = elim (Bool-cases (is_expired now x)) [
    | inr o ↦ rw (o, expire) (expire-IsValid now es c d.1 a.1 v)
    | inl o ↦
        let w = drop_entry-IsValid k x c a.0 v in
        rw (o, expire)
          (expire-IsValid now es (record (drop_entry k x c) { ttl_evictions = c.ttl_evictions + 1 })
            d.1 (unfold drop_entry in AreIn-delete k es c.cache (All-keys_ne k es d.0) a.1)
            (IsValid-stats (drop_entry k x c) c.hits c.misses c.evictions (c.ttl_evictions + 1) w))
  ]

-- A call other than `load`.
abbrev pub IsOwn : {R D : Type 0} → ℕ × Call R D → Type 0
IsOwn (now, loads file) = ⊥
IsOwn (now, _) = Unit

module _ {R D : Type 0} (json_length : R → Option ℕ)
    (parse : D → Option (List (String × CacheEntry R))) where
  pub step-IsValid :
      (c : PromptCache R) (now : ℕ) (call : Call R D)
      → IsOwn (now, call)
      → IsValid c
      → IsValid (step json_length parse c now call)
  unfolding step cleanup clear
  step-IsValid c now (gets k) own v = lookup-IsValid c k now v
  step-IsValid c now (sets k response) own v = store-IsValid json_length c k response now v
  step-IsValid c now cleans own v =
      expire-IsValid now c.cache c v.distinct (AreIn-self c.cache v.distinct) v
  step-IsValid c now clears own v = record {
    distinct = tt;
    tokens_counted = refl;
    bytes_counted = refl;
    entries_bounded = omega arith;
    tokens_bounded = omega arith;
    bytes_bounded = omega arith;
  }
  step-IsValid c now evicts own v = evict_lru-IsValid c v
  step-IsValid c now (loads file) own v = absurd own

  run-IsValid_from :
      (c : PromptCache R) (calls : List (ℕ × Call R D))
      → All IsOwn calls
      → IsValid c
      → IsValid (run json_length parse c calls)
  unfolding run
  run-IsValid_from c [] own v = v
  run-IsValid_from c ((now, call) ∷ calls) own v =
      run-IsValid_from (step json_length parse c now call) calls own.1
        (step-IsValid c now call own.0 v)

  pub new-IsValid : (config : PromptCacheConfig) → IsValid (new {R = R} config)
  unfolding new
  new-IsValid config = record {
    distinct = tt;
    tokens_counted = refl;
    bytes_counted = refl;
    entries_bounded = omega arith;
    tokens_bounded = omega arith;
    bytes_bounded = omega arith;
  }

  -- Without a file, or in a disabled cache, the constructor loads nothing.
  construct_empty :
      (config : PromptCacheConfig) (now : ℕ) → construct parse config none now ≡ new config
  unfolding construct load
  construct_empty config now =
      if_both (λ c. c ≡ new config) config.enabled
        (elim (Option-cases (persistence_path (new {R = R} config).config)) [
          | inl e ↦ rw (e, load) refl
          | inr (path, e) ↦ rw (e, load) refl
        ])
        refl

  construct_disabled :
      (config : PromptCacheConfig) (file : Option D) (now : ℕ)
      → config.enabled ≡ false
      → construct parse config file now ≡ new config
  unfolding construct
  construct_disabled config file now off = if_false _ _ off

  restart-IsValid :
      (stringify : List (String × CacheEntry R) → Option D)
      → ((entries : List (String × CacheEntry R)) (text : D)
          → stringify entries ≡ some text
          → parse text ≡ some entries)
      → (c : PromptCache R) (now later : ℕ) → IsValid c
      → now ≤ later
      → IsValid (construct parse c.config (save stringify c none now) later)
  restart-IsValid stringify reads c now later v l = elim (Bool-cases c.config.enabled) [
    | inr off ↦
        subst IsValid (sym (construct_disabled c.config (save stringify c none now) later off))
          (new-IsValid c.config)
    | inl on ↦ elim (construct-save stringify parse reads c none now later v on l) [
      | inl (_, inl restored) ↦ restored.valid
      | inl (_, inr (same, _)) ↦ empty_file same
      | inr (_, same, _) ↦ empty_file same
    ]
  ]
    where
      empty_file :
          save stringify c none now ≡ none
          → IsValid (construct parse c.config (save stringify c none now) later)
      empty_file same =
          subst IsValid
            (sym (ap (λ f. construct parse c.config f later) same ∙ construct_empty c.config later))
            (new-IsValid c.config)

  -- Suppose that `JSON.parse` reads what `JSON.stringify` writes of cache entries. Whatever calls
  -- other than `load` are made of a new cache, and also after it was saved where no file was and a
  -- cache of the same configuration was constructed from that file, again with any calls but `load`:
  -- no fingerprint has two entries; the totals of tokens and bytes are those of the entries; and
  -- neither the number of entries nor a total passes its limit.
  pub run_cache-IsValid :
      (stringify : List (String × CacheEntry R) → Option D)
      → ((entries : List (String × CacheEntry R)) (text : D)
          → stringify entries ≡ some text
          → parse text ≡ some entries)
      → (config : PromptCacheConfig) (calls calls' : List (ℕ × Call R D)) (now later : ℕ)
      → All IsOwn calls
      → All IsOwn calls'
      → now ≤ later
      → let c = run json_length parse (new config) calls in
        IsValid c
        × IsValid (
            run json_length parse
              (construct parse c.config (save stringify c none now) later)
              calls')
  run_cache-IsValid stringify reads config calls calls' now later own own' l =
      let v = run-IsValid_from (new config) calls own (new-IsValid config) in
      (
        v,
        run-IsValid_from _ calls' own' (
            restart-IsValid stringify reads (run json_length parse (new config) calls) now later v
              l),
      )
