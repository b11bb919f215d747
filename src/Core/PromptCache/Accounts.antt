-- ===== src/Core/PromptCache/Accounts.antt =====
-- The books of the prompt cache of src/core/prompt-cache.ts, through its single methods.
use mlx_serving.Prelude.{
  ℕ, ◌+◌, ◌≤◌, ◌≡◌, refl, ap, ◌∙◌, true, false, none, some, [], ◌∷◌, String, ◌==◌, string_eq,
  length, arith, Bool-cases, Option-cases, inl, inr, is_some, List-cases,
}
use mlx_serving.JsMap.{
  JsMap, get, put, delete, has, Distinct, put-Distinct, delete-Distinct, get-delete_self,
  length-delete, length-put_new, total, total-delete, total-append, put_absent, get_head,
}
use mlx_serving.Core.PromptCache.{
  CacheEntry, PromptCache, is_expired, drop_entry, lookup, evict_lru, is_over, insert,
}

module _ {R : Type 0} where
  abbrev pub tokens_in : JsMap String (CacheEntry R) → ℕ
  tokens_in m = total (λ x. x.tokens) m

  abbrev pub bytes_in : JsMap String (CacheEntry R) → ℕ
  bytes_in m = total (λ x. x.bytes) m

  pub record IsValid (c : PromptCache R) : Type 0 where
    pub distinct : Distinct c.cache
    pub tokens_counted : c.total_tokens ≡ tokens_in c.cache
    pub bytes_counted : c.total_bytes ≡ bytes_in c.cache
    pub entries_bounded : length c.cache ≤ c.config.max_entries
    pub tokens_bounded : c.total_tokens ≤ c.config.max_total_tokens
    pub bytes_bounded : c.total_bytes ≤ c.config.max_total_bytes

  pub get-some-has :
      (k : String) (m : JsMap String (CacheEntry R)) {x : CacheEntry R}
      → get k m ≡ some x
      → has k m ≡ true
  get-some-has k m h = ground arith

  -- What any method that counts a dropped entry leaves.
  pub drop_entry-IsValid :
      (k : String) (x : CacheEntry R) (c : PromptCache R)
      → get k c.cache ≡ some x
      → IsValid c
      → IsValid (drop_entry k x c)
  unfolding drop_entry
  drop_entry-IsValid k x c h v =
      let t = total-delete (λ (y : CacheEntry R). y.tokens) k c.cache h in
      let b = total-delete (λ (y : CacheEntry R). y.bytes) k c.cache h in
      let l = length-delete k c.cache (get-some-has k c.cache h) in
      record {
        distinct = delete-Distinct k c.cache v.distinct;
        tokens_counted = omega (arith, v.tokens_counted, t);
        bytes_counted = omega (arith, v.bytes_counted, b);
        entries_bounded = omega (arith, v.entries_bounded, l);
        tokens_bounded = omega (arith, v.tokens_bounded);
        bytes_bounded = omega (arith, v.bytes_bounded);
      }

  -- The validity of a cache does not depend on its statistics.
  pub IsValid-stats :
      (c : PromptCache R) (h m e t : ℕ)
      → IsValid c
      → IsValid (record c { hits = h; misses = m; evictions = e; ttl_evictions = t })
  IsValid-stats c h m e t v = record {
    distinct = v.distinct;
    tokens_counted = v.tokens_counted;
    bytes_counted = v.bytes_counted;
    entries_bounded = v.entries_bounded;
    tokens_bounded = v.tokens_bounded;
    bytes_bounded = v.bytes_bounded;
  }

  -- An entry with a new key that fits.
  pub insert-IsValid :
      (c : PromptCache R) (k : String) (x : CacheEntry R)
      → get k c.cache ≡ none
      → is_over c x.tokens x.bytes ≡ false
      → IsValid c
      → IsValid (insert c k x)
  unfolding insert is_over
  insert-IsValid c k x h o v =
      let same = put_absent k x c.cache h in
      let t =
        ap tokens_in same ∙ total-append (λ (y : CacheEntry R). y.tokens) c.cache ((k, x) ∷ []) in
      let b =
        ap bytes_in same ∙ total-append (λ (y : CacheEntry R). y.bytes) c.cache ((k, x) ∷ []) in
      let l = length-put_new k x c.cache (ap is_some h) in
      record {
        distinct = put-Distinct k x c.cache v.distinct;
        tokens_counted = omega (arith, v.tokens_counted, t);
        bytes_counted = omega (arith, v.bytes_counted, b);
        entries_bounded = ground (arith, l);
        tokens_bounded = ground arith;
        bytes_bounded = ground arith;
      }

  -- An entry that is used stays valid, and moves to the end.
  pub touch-IsValid :
      (c : PromptCache R) (k : String) (x y : CacheEntry R) (hits : ℕ)
      → get k c.cache ≡ some x
      → y.tokens ≡ x.tokens
      → y.bytes ≡ x.bytes
      → IsValid c
      → IsValid (record c { cache = put k y (delete k c.cache); hits = hits })
  touch-IsValid c k x y hits h et eb v =
      let absent = get-delete_self k c.cache v.distinct in
      let same = put_absent k y (delete k c.cache) absent in
      let t = total-delete (λ (z : CacheEntry R). z.tokens) k c.cache h in
      let b = total-delete (λ (z : CacheEntry R). z.bytes) k c.cache h in
      let t' =
        ap tokens_in same
        ∙ total-append (λ (z : CacheEntry R). z.tokens) (delete k c.cache) ((k, y) ∷ []) in
      let b' =
        ap bytes_in same
        ∙ total-append (λ (z : CacheEntry R). z.bytes) (delete k c.cache) ((k, y) ∷ []) in
      let l = length-delete k c.cache (get-some-has k c.cache h) in
      let l' = length-put_new k y (delete k c.cache) (ap is_some absent) in
      record {
        distinct = put-Distinct k y (delete k c.cache) (delete-Distinct k c.cache v.distinct);
        tokens_counted = omega (arith, v.tokens_counted, t, t', et);
        bytes_counted = omega (arith, v.bytes_counted, b, b', eb);
        entries_bounded = omega (arith, v.entries_bounded, l, l');
        tokens_bounded = v.tokens_bounded;
        bytes_bounded = v.bytes_bounded;
      }

  pub lookup-IsValid :
      (c : PromptCache R) (k : String) (now : ℕ) → IsValid c → IsValid (lookup c k now).0
  unfolding lookup drop_entry
  lookup-IsValid c k now v = elim (Bool-cases c.config.enabled) [
    | inr n ↦ ground arith
    | inl n ↦ elim (Option-cases (get k c.cache)) [
      | inl e ↦
          rw (n, e, lookup) (IsValid-stats c c.hits (c.misses + 1) c.evictions c.ttl_evictions v)
      | inr (x, e) ↦ elim (Bool-cases (is_expired now x)) [
        | inl o ↦
            let d = drop_entry-IsValid k x c e v in
            rw (n, e, lookup)
              (rw o (
                IsValid-stats (drop_entry k x c) c.hits (c.misses + 1) c.evictions
                  (c.ttl_evictions + 1) d))
        | inr o ↦
            rw (n, e, lookup)
              (rw o (
                touch-IsValid c k x
                  (record x { last_accessed_at = now; access_count = x.access_count + 1 })
                  (c.hits + 1) e refl refl v))
      ]
    ]
  ]

  pub evict_lru-IsValid : (c : PromptCache R) → IsValid c → IsValid (evict_lru c).0
  unfolding evict_lru drop_entry
  evict_lru-IsValid c v = elim (List-cases c.cache) [
    | inl e ↦ rw (e, evict_lru) v
    | inr ((k, x), rest, e) ↦ elim (Bool-cases (k == "")) [
      | inl o ↦ rw (e, evict_lru) (rw o v)
      | inr o ↦
          let d = drop_entry-IsValid k x c (ap (get k) e ∙ get_head k x rest) v in
          rw (e, evict_lru)
            (rw o (
              IsValid-stats (drop_entry k x c) c.hits c.misses (c.evictions + 1) c.ttl_evictions d))
    ]
  ]
