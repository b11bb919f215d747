-- ===== src/Core/PromptCache/Lru.antt =====
-- What `set` of src/core/prompt-cache.ts evicts.
use mlx_serving.Prelude.{
  if_true, if_false, ℕ, zero, suc, ◌+◌, ◌≤◌, ◌<◌, ◌≡◌, refl, sym, ap, ◌∙◌, subst, Bool, true, false,
  ◌&&◌, not, Option, none, [], ◌∷◌, ◌++◌, String, ◌==◌, string_eq, leb, ltb, length, All, arith,
  Bool-cases, Option-cases, List-cases, inl, inr,
}
use mlx_serving.JsMap.{JsMap, get, delete, put_absent, delete_absent, delete_head}
use mlx_serving.Core.PromptCache.{
  PromptCacheConfig, CacheEntry, PromptCache, drop_entry, evict_lru, is_over, make_room, forget,
  new_entry, bytes_of, insert, store, max_single_entry_bytes,
}
use mlx_serving.Core.PromptCache.Accounts.{tokens_in, bytes_in, IsValid, evict_lru-IsValid}
use mlx_serving.Core.PromptCache.Room.{make_room-Roomy, forget-IsValid}

module _ {R : Type 0} where
  -- An entry of so many tokens and bytes could be added to these entries.
  unfoldable pub has_space : PromptCacheConfig → ℕ → ℕ → JsMap String (CacheEntry R) → Bool
  has_space config tokens bytes m =
      ltb (length m) config.max_entries
      && leb (tokens_in m + tokens) config.max_total_tokens
      && leb (bytes_in m + bytes) config.max_total_bytes

  -- For each of the first entries: from it on, there is no space.
  unfoldable pub AreNeeded :
      PromptCacheConfig → ℕ → ℕ → JsMap String (CacheEntry R) → JsMap String (CacheEntry R) → Type 0
  AreNeeded config tokens bytes [] kept = Unit
  AreNeeded config tokens bytes (p ∷ dropped) kept =
      (has_space config tokens bytes (p ∷ dropped ++ kept) ≡ false)
      × AreNeeded config tokens bytes dropped kept

  -- The oldest entries are dropped, no more of them than necessary, until there is space.
  pub record LeastEvicted (config : PromptCacheConfig) (tokens bytes : ℕ)
      (m kept : JsMap String (CacheEntry R)) : Type 0 where
    pub dropped : JsMap String (CacheEntry R)
    pub oldest : m ≡ dropped ++ kept
    pub space : has_space config tokens bytes kept ≡ true
    pub needed : AreNeeded config tokens bytes dropped kept

  is_over_lem :
      (c : PromptCache R) (t b : ℕ)
      → IsValid c
      → is_over c t b ≡ not (has_space c.config t b c.cache)
  unfolding is_over has_space
  is_over_lem c t b v = ground (arith, v.tokens_counted, v.bytes_counted)

  -- No key is the empty text, which no fingerprint is.
  abbrev pub AreNamed : JsMap String (CacheEntry R) → Type 0
  AreNamed m = All (λ p. (p.0 == "") ≡ false) m

  -- The step of the loop on a cache with a first entry.
  pub evict_lru_first :
      (c : PromptCache R) (k : String) (x : CacheEntry R) (rest : JsMap String (CacheEntry R))
      → c.cache ≡ (k, x) ∷ rest
      → (k == "") ≡ false
      → ((evict_lru c).1 ≡ true)
        × ((evict_lru c).0.cache ≡ rest)
        × ((evict_lru c).0.config ≡ c.config)
  unfolding evict_lru drop_entry
  evict_lru_first c k x rest e n =
      rw (e, evict_lru) (rw n (refl, ap (delete k) e ∙ delete_head k x rest, refl))

  -- With space in an empty cache the loop makes room, whatever the fuel above the number of entries.
  make_room-LeastEvicted :
      (config : PromptCacheConfig) (fuel : ℕ) (c : PromptCache R) (t b : ℕ)
      → c.config ≡ config
      → length c.cache < fuel
      → IsValid c
      → AreNamed c.cache
      → has_space config t b [] ≡ true
      → ((make_room fuel c t b).1 ≡ true)
        × LeastEvicted config t b c.cache (make_room fuel c t b).0.cache
  unfolding make_room AreNeeded
  make_room-LeastEvicted config zero c t b g l v n s = absurd (omega (arith, l))
  make_room-LeastEvicted config (suc fuel) c t b g l v n s =
      let over = is_over_lem c t b v ∙ ap (λ i. not (has_space i t b c.cache)) g in
      elim (Bool-cases (is_over c t b)) [
        | inr o ↦
            rw (o, make_room)
              (
                refl,
                record { dropped = []; oldest = refl; space = ground (arith, over); needed = tt },
              )
        | inl o ↦ elim (List-cases c.cache) [
          | inl e ↦ let empty = ap (has_space config t b) e in absurd (ground arith)
          | inr ((k, x), rest, e) ↦
              let named = subst AreNamed e n in
              let (evicted, same, config_same) = evict_lru_first c k x rest e named.0 in
              let r =
                make_room-LeastEvicted config fuel (evict_lru c).0 t b (config_same ∙ g)
                  (let shorter = ap length e in
                    let same_length = ap length same in omega (arith, l))
                  (evict_lru-IsValid c v) (subst AreNamed (sym same) named.1) s in
              let whole = e ∙ ap (λ m. (k, x) ∷ m) (sym same ∙ r.1.oldest) in
              rw (o, evicted, make_room)
                (
                  r.0,
                  record {
                    dropped = (k, x) ∷ r.1.dropped;
                    oldest = whole;
                    space = r.1.space;
                    needed =
                        (sym (ap (has_space config t b) whole) ∙ ground (arith, over), r.1.needed);
                  },
                )
        ]
      ]

  AreNamed-delete :
      (k : String) (m : JsMap String (CacheEntry R)) → AreNamed m → AreNamed (delete k m)
  unfolding delete
  AreNamed-delete k [] n = tt
  AreNamed-delete k ((j, x) ∷ m) n = elim (Bool-cases (j == k)) [
    | inl e ↦ rw (e, delete) n.1
    | inr e ↦ rw (e, delete) (n.0, AreNamed-delete k m n.1)
  ]

  cache-forget : (c : PromptCache R) (k : String) → (forget c k).cache ≡ delete k c.cache
  unfolding forget drop_entry
  cache-forget c k = elim (Option-cases (get k c.cache)) [
    | inl e ↦ rw (e, forget) (sym (delete_absent k c.cache e))
    | inr (x, e) ↦ rw (e, forget) refl
  ]

  -- The cache that `set` leaves: the entry stands last, after those that were kept.
  pub record Stored (config : PromptCacheConfig) (k : String) (x : CacheEntry R)
      (m m' : JsMap String (CacheEntry R)) : Type 0 where
    pub kept : JsMap String (CacheEntry R)
    pub last : m' ≡ kept ++ (k, x) ∷ []
    pub evicted : LeastEvicted config x.tokens x.bytes (delete k m) kept

  -- What `set` needs: the cache is on and within its books, no key is the empty text, and
  -- the response is at most 10 MB and would fit in an empty cache.
  pub record IsStorable (json_length : R → Option ℕ) (c : PromptCache R) (response : R)
      : Type 0 where
    pub valid : IsValid c
    pub enabled : c.config.enabled ≡ true
    pub named : AreNamed c.cache
    pub small : bytes_of (json_length response) ≤ max_single_entry_bytes
    pub fits : has_space c.config 0 (bytes_of (json_length response)) [] ≡ true

  module _ (json_length : R → Option ℕ) (c : PromptCache R) (k : String) (response : R)
      (now : ℕ) where
    abbrev entry : CacheEntry R
    entry = new_entry c.config response (bytes_of (json_length response)) now

    abbrev forgotten : PromptCache R
    forgotten = forget c k

    abbrev roomed : PromptCache R × Bool
    roomed = make_room (suc (length forgotten.cache)) forgotten entry.tokens entry.bytes

    roomed-LeastEvicted :
        IsStorable json_length c response
        → (roomed.1 ≡ true)
          × LeastEvicted c.config entry.tokens entry.bytes forgotten.cache roomed.0.cache
    unfolding new_entry
    roomed-LeastEvicted s =
        let (valid, absent, config_same) = forget-IsValid c k s.valid in
        make_room-LeastEvicted c.config (suc (length forgotten.cache)) forgotten 0 entry.bytes
          config_same (omega arith) valid
          (subst AreNamed (sym (cache-forget c k)) (AreNamed-delete k c.cache s.named)) s.fits

    roomed-Roomy :
        IsStorable json_length c response
        → (get k roomed.0.cache ≡ none) × (roomed.0.config ≡ c.config)
    roomed-Roomy s =
        let (valid, absent, config_same) = forget-IsValid c k s.valid in
        let r =
          make_room-Roomy (suc (length forgotten.cache)) forgotten entry.tokens entry.bytes valid in
        (r.absent k absent, r.kept ∙ config_same)

    store-insert :
        IsStorable json_length c response
        → store json_length c k response now ≡ insert roomed.0 k entry
    unfolding store new_entry
    store-insert s =
        let small_test : ltb max_single_entry_bytes entry.bytes ≡ false = ground (arith, s.small) in
        if_true _ _ s.enabled ∙ if_false _ _ small_test ∙ if_true _ _ (roomed-LeastEvicted s).0

    -- On an enabled cache within its books and without an empty key, setting a response that is at
    -- most 10 MB and would fit in an empty cache takes the fingerprint's old entry away, drops the
    -- least recently used of the other entries, no more of them than necessary, until there is
    -- space, and puts the new entry last.
    pub store-Stored :
        IsStorable json_length c response
        → Stored c.config k
            (new_entry c.config response (bytes_of (json_length response)) now)
            c.cache
            (store json_length c k response now).cache
    unfolding insert
    store-Stored s = record {
      kept = roomed.0.cache;
      last =
          ap (λ (d : PromptCache R). d.cache) (store-insert s)
          ∙ put_absent k entry roomed.0.cache (roomed-Roomy s).0;
      evicted =
          subst (λ m. LeastEvicted c.config entry.tokens entry.bytes m roomed.0.cache)
            (cache-forget c k) (roomed-LeastEvicted s).1;
    }
