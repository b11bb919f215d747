-- ===== src/Core/PromptCache/Persistence.antt =====
-- The entries that `save` of src/core/prompt-cache.ts writes, and the loop of `load` on them.
use mlx_serving.Prelude.{
  if_false, ℕ, ◌+◌, ◌≤◌, ◌≡◌, refl, sym, ap, ◌∙◌, subst, false, not, none, [], ◌∷◌, ◌++◌, String,
  string_eq, length, All, ==_sym, arith, Bool-cases, inl, inr, filter_b,
}
use mathlib.Core.List.{append_assoc, append-nil}
use mlx_serving.JsMap.{
  JsMap, get, put, put_absent, get-put, Distinct, total, filter_b-Distinct, unless, sweep_lem,
  get-sweep,
}
use mlx_serving.Core.PromptCache.{
  PromptCacheConfig, CacheEntry, PromptCache, new, is_expired, insert,
}
use mlx_serving.Core.PromptCache.Disk.{saved_entries, load_entries}
use mlx_serving.Core.PromptCache.Accounts.{tokens_in, bytes_in, IsValid}

module _ {R : Type 0} where
  abbrev AreFresh : ℕ → JsMap String (CacheEntry R) → Type 0
  AreFresh now m = All (λ p. is_expired now p.1 ≡ false) m

  -- None of the entries' keys is in the map.
  abbrev AreAbsent : JsMap String (CacheEntry R) → JsMap String (CacheEntry R) → Type 0
  AreAbsent entries m = All (λ p. get p.0 m ≡ none) entries

  AreAbsent-put :
      (k : String) (x : CacheEntry R) (entries m : JsMap String (CacheEntry R))
      → get k entries ≡ none
      → AreAbsent entries m
      → AreAbsent entries (put k x m)
  unfolding get
  AreAbsent-put k x [] m n a = tt
  AreAbsent-put k x ((j, y) ∷ es) m n a =
      (ground (arith, get-put j k x m, ==_sym j k), AreAbsent-put k x es m (ground arith) a.1)

  record Loaded (entries : JsMap String (CacheEntry R)) (d d' : PromptCache R) : Type 0 where
    cache_same : d'.cache ≡ d.cache ++ entries
    tokens_same : d'.total_tokens ≡ d.total_tokens + tokens_in entries
    bytes_same : d'.total_bytes ≡ d.total_bytes + bytes_in entries
    config_same : d'.config ≡ d.config

  -- What the loop leaves of a cache that has none of the keys.
  load-Loaded :
      (entries : JsMap String (CacheEntry R)) (d : PromptCache R) (now : ℕ)
      → Distinct entries
      → AreFresh now entries
      → AreAbsent entries d.cache
      → Loaded entries d (load_entries entries d now)
  unfolding load_entries insert
  load-Loaded [] d now u f a = record {
    cache_same = sym (append-nil d.cache);
    tokens_same = omega arith;
    bytes_same = omega arith;
    config_same = refl;
  }
  load-Loaded ((k, x) ∷ es) d now u f a =
      let r = load-Loaded es (insert d k x) now u.1 f.1 (AreAbsent-put k x es d.cache u.0 a.1) in
      rw (f.0, load_entries)
        (record {
          cache_same =
              r.cache_same
              ∙ ap (λ m. m ++ es) (put_absent k x d.cache a.0)
              ∙ append_assoc d.cache ((k, x) ∷ []) es;
          tokens_same = omega (arith, r.tokens_same);
          bytes_same = omega (arith, r.bytes_same);
          config_same = r.config_same;
        })

  pub saved_entries_lem :
      (now : ℕ) (m : JsMap String (CacheEntry R))
      → saved_entries now m ≡ filter_b (λ p. not (is_expired now p.1)) m
  unfolding saved_entries
  saved_entries_lem now [] = refl
  saved_entries_lem now ((k, x) ∷ m) = ground (arith, saved_entries_lem now m)

  saved_entries-AreFresh :
      (now : ℕ) (m : JsMap String (CacheEntry R)) → AreFresh now (saved_entries now m)
  unfolding saved_entries
  saved_entries-AreFresh now [] = tt
  saved_entries-AreFresh now ((k, x) ∷ m) = elim (Bool-cases (is_expired now x)) [
    | inl h ↦ rw (h, saved_entries) (saved_entries-AreFresh now m)
    | inr h ↦ rw (h, saved_entries) (h, saved_entries-AreFresh now m)
  ]

  length-saved_entries :
      (now : ℕ) (m : JsMap String (CacheEntry R)) → length (saved_entries now m) ≤ length m
  unfolding saved_entries
  length-saved_entries now [] = omega arith
  length-saved_entries now ((k, x) ∷ m) = ground (arith, length-saved_entries now m)

  total-saved_entries :
      (f : CacheEntry R → ℕ) (now : ℕ) (m : JsMap String (CacheEntry R))
      → total f (saved_entries now m) ≤ total f m
  unfolding saved_entries
  total-saved_entries f now [] = omega arith
  total-saved_entries f now ((k, x) ∷ m) = ground (arith, total-saved_entries f now m)

  get-saved_entries :
      (k : String) (now : ℕ) (m : JsMap String (CacheEntry R))
      → Distinct m
      → get k (saved_entries now m) ≡ unless (is_expired now) (get k m)
  get-saved_entries k now m u =
      ap (get k) (saved_entries_lem now m ∙ sym (sweep_lem (is_expired now) m u))
      ∙ get-sweep k (is_expired now) m u

  AreAbsent-nil : (m : JsMap String (CacheEntry R)) → AreAbsent m []
  unfolding get
  AreAbsent-nil [] = tt
  AreAbsent-nil (p ∷ m) = (refl, AreAbsent-nil m)

  pub saved_entries-saved_entries :
      (now later : ℕ) (m : JsMap String (CacheEntry R))
      → now ≤ later
      → saved_entries later (saved_entries now m) ≡ saved_entries later m
  unfolding saved_entries
  saved_entries-saved_entries now later [] l = refl
  saved_entries-saved_entries now later ((k, x) ∷ m) l =
      ground (arith, saved_entries-saved_entries now later m l)

  -- The loop passes over the entries that have expired.
  pub load_entries-saved_entries :
      (entries : JsMap String (CacheEntry R)) (d : PromptCache R) (now : ℕ)
      → load_entries (saved_entries now entries) d now ≡ load_entries entries d now
  unfolding load_entries saved_entries
  load_entries-saved_entries [] d now = refl
  load_entries-saved_entries ((k, x) ∷ es) d now = elim (Bool-cases (is_expired now x)) [
    | inl h ↦ rw (h, saved_entries) (load_entries-saved_entries es d now)
    | inr h ↦
        ap (λ e. load_entries e d now)
          (if_false (saved_entries now es) ((k, x) ∷ saved_entries now es) h)
        ∙ ap (λ c. load_entries (saved_entries now es) c now) (if_false d (insert d k x) h)
        ∙ load_entries-saved_entries es (insert d k x) now
        ∙ sym (ap (λ c. load_entries es c now) (if_false d (insert d k x) h))
  ]

  -- A cache that is within its books and holds what of another has not expired.
  pub record Restored (c : PromptCache R) (now : ℕ) (d : PromptCache R) : Type 0 where
    pub valid : IsValid d
    pub in_order : d.cache ≡ filter_b (λ p. not (is_expired now p.1)) c.cache
    pub answers : (k : String) → get k d.cache ≡ unless (is_expired now) (get k c.cache)

  pub load_entries-Restored :
      (c : PromptCache R) (now : ℕ)
      → IsValid c
      → Restored c now (load_entries (saved_entries now c.cache) (new c.config) now)
  unfolding new
  load_entries-Restored c now v =
      let saved = saved_entries now c.cache in
      let same = saved_entries_lem now c.cache in
      let u : Distinct saved =
        subst Distinct (sym same)
          (filter_b-Distinct (λ p. not (is_expired now p.1)) c.cache v.distinct) in
      let r =
        load-Loaded saved (new c.config) now u (saved_entries-AreFresh now c.cache)
          (AreAbsent-nil saved) in
      let l = length-saved_entries now c.cache in
      let t = total-saved_entries (λ (y : CacheEntry R). y.tokens) now c.cache in
      let b = total-saved_entries (λ (y : CacheEntry R). y.bytes) now c.cache in
      record {
        valid = record {
          distinct = subst Distinct (sym r.cache_same) u;
          tokens_counted = omega (arith, r.tokens_same, ap tokens_in r.cache_same);
          bytes_counted = omega (arith, r.bytes_same, ap bytes_in r.cache_same);
          entries_bounded = omega (
            arith,
            l,
            v.entries_bounded,
            ap length r.cache_same,
            ap (λ (g : PromptCacheConfig). g.max_entries) r.config_same,
          );
          tokens_bounded = omega (
            arith,
            t,
            r.tokens_same,
            ap (λ (g : PromptCacheConfig). g.max_total_tokens) r.config_same,
            v.tokens_counted,
            v.tokens_bounded,
          );
          bytes_bounded = omega (
            arith,
            b,
            r.bytes_same,
            ap (λ (g : PromptCacheConfig). g.max_total_bytes) r.config_same,
            v.bytes_counted,
            v.bytes_bounded,
          );
        };
        in_order = r.cache_same ∙ same;
        answers = λ k. ap (get k) r.cache_same ∙ get-saved_entries k now c.cache v.distinct;
      }
