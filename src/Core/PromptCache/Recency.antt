-- ===== src/Core/PromptCache/Recency.antt =====
-- Where `get` of src/core/prompt-cache.ts leaves an entry, and what is evicted next.
use mlx_serving.Prelude.{
  ℕ, ◌+◌, ◌<◌, ◌≡◌, refl, sym, ap, ◌∙◌, subst, true, false, some, [], ◌∷◌, ◌++◌, String, ◌==◌,
  string_eq, All-append, arith, List-cases, inl, inr,
}
use mathlib.Core.List.{tail}
use mlx_serving.JsMap.{
  JsMap, get, put, delete, put_absent, get-delete_self, delete-middle, Distinct, get-middle,
}
use mlx_serving.Core.PromptCache.{CacheEntry, PromptCache, is_expired, lookup, evict_lru}
use mlx_serving.Core.PromptCache.Accounts.{IsValid}
use mlx_serving.Core.PromptCache.Lru.{AreNamed, evict_lru_first}

module _ {R : Type 0} where
  -- The entry after one more access.
  unfoldable pub touched : ℕ → CacheEntry R → CacheEntry R
  touched now x = record x { last_accessed_at = now; access_count = x.access_count + 1 }

  lookup_fresh :
      (c : PromptCache R) (k : String) (now : ℕ) (x : CacheEntry R)
      → c.config.enabled ≡ true
      → get k c.cache ≡ some x
      → now < x.expires_at
      → ((lookup c k now).1 ≡ some x.response)
        × ((lookup c k now).0.cache ≡ put k (touched now x) (delete k c.cache))
  unfolding lookup touched
  lookup_fresh c k now x n h l =
      let fresh : is_expired now x ≡ false = ground (arith, l) in
      rw (n, h, lookup) (rw fresh (refl, refl))

  AreNamed-moved :
      (k : String) (x y : CacheEntry R) (before after : JsMap String (CacheEntry R))
      → AreNamed (before ++ (k, x) ∷ after)
      → AreNamed (before ++ after ++ (k, y) ∷ [])
  AreNamed-moved k x y [] after n =
      All-append (λ (p : String × CacheEntry R). (p.0 == "") ≡ false) after _ n.1 (n.0, tt)
  AreNamed-moved k x y (p ∷ before) after n = (n.0, AreNamed-moved k x y before after n.1)

  evict_lru-tail : (c : PromptCache R) → AreNamed c.cache → (evict_lru c).0.cache ≡ tail c.cache
  unfolding evict_lru
  evict_lru-tail c n = elim (List-cases c.cache) [
    | inl e ↦ rw (e, evict_lru) e
    | inr ((k, x), rest, e) ↦
        (evict_lru_first c k x rest e (subst AreNamed e n).0).1 ∙ ap tail (sym e)
  ]

  -- On an enabled cache within its books and without an empty key, a `get` of a fingerprint whose
  -- entry has not expired, wherever it stands in the map, returns the response and leaves the other
  -- entries in their order, followed by that entry with one more access and the time of this one. The
  -- eviction that follows takes the first of the entries in that order.
  pub lookup_moves_last :
      (c : PromptCache R) (k : String) (x : CacheEntry R)
      (before after : JsMap String (CacheEntry R)) (now : ℕ)
      → c.config.enabled ≡ true
      → IsValid c
      → AreNamed c.cache
      → c.cache ≡ before ++ (k, x) ∷ after
      → now < x.expires_at
      → ((lookup c k now).1 ≡ some x.response)
        × ((lookup c k now).0.cache ≡ before ++ after ++ (k, touched now x) ∷ [])
        × ((evict_lru (lookup c k now).0).0.cache
            ≡ tail (before ++ after ++ (k, touched now x) ∷ []))
  lookup_moves_last c k x before after now on v n e l =
      let u : Distinct (before ++ (k, x) ∷ after) = subst Distinct e v.distinct in
      let found : get k c.cache ≡ some x = ap (get k) e ∙ get-middle k x before after u in
      let (answer, left) = lookup_fresh c k now x on found l in
      let moved : (lookup c k now).0.cache ≡ before ++ after ++ (k, touched now x) ∷ [] =
        left
        ∙ put_absent k (touched now x) (delete k c.cache) (get-delete_self k c.cache v.distinct)
        ∙ ap (λ m. m ++ (k, touched now x) ∷ [])
            (ap (delete k) e ∙ delete-middle k x before after u) in
      let named = AreNamed-moved k x (touched now x) before after (subst AreNamed e n) in
      (
        answer,
        moved,
        evict_lru-tail (lookup c k now).0 (subst AreNamed (sym moved) named) ∙ ap tail moved,
      )
